-- ===== src/Manager/Terminate/Gone.antt =====
-- cuttlefish/cfctl/src/daemon/manager.rs: the end of `terminate_guest`, and the registry after it.
use fundroid.Prelude.{ℕ, ◌≡◌, ◌≢◌, Option, none, some, arith, refl, ◌∙◌}
use fundroid.Exec.{ok, stuck, pure, ◌>>=◌, ◌>>◌}
use fundroid.Exec.Keeps.{Keeps}
use fundroid.Exec.Leaves.{Leaves, Leaves-bind, Leaves-then, Leaves-pure}
use fundroid.Exec.Finishes.{Finishes, finishes_rules}
use fundroid.Guest.Timeout.{Unlocked, wait_timeout-Ends}
use fundroid.Protocol.{InstanceId}
use fundroid.Host.{Env, World, ExitStatusInfo}
use fundroid.Host.Untouched.{Untouched-refl}
use fundroid.Guest.{signal, get, wait_timeout, remove_if_handle}
use fundroid.Guest.Untouched.{wait_timeout-Untouched, signal-Untouched}
use fundroid.Manager.Terminate.{
  terminate_guest, terminate_handle, after_grace, force_kill, drop_handle, sigterm, sigkill,
}

abbrev Registered : InstanceId → Option ℕ → World → Type 0
Registered id h w = w.registry id ≡ h

abbrev Gone : InstanceId → {A : Type 0} → A → World → Type 0
Gone id a w = w.registry id ≡ none

module _ (env : Env) (id h : ℕ) where
  signal-Registered : (sig : ℕ) → Keeps (Registered id (some h)) (signal env h sig)
  signal-Registered sig = record {
    run = λ w r. ((signal-Untouched env id w h sig).run w (Untouched-refl id w)).registry_at ∙ r;
  }

  wait_timeout-Registered :
      (timeout : ℕ) → Keeps (Registered id (some h)) (wait_timeout env h timeout)
  wait_timeout-Registered timeout = record {
    run = λ w r.
        ((wait_timeout-Untouched env id w h timeout).run w (Untouched-refl id w)).registry_at ∙ r;
  }

  drop_handle-Gone : Leaves (Registered id (some h)) (Gone id) (drop_handle id h)
  unfolding remove_if_handle
  drop_handle-Gone = record { after = λ w r a e. ground arith }

  dropped-Gone :
      (e : Option ExitStatusInfo)
      → Leaves (Registered id (some h)) (Gone id) (do drop_handle id h; pure e)
  dropped-Gone e = Leaves-bind _ _ drop_handle-Gone λ a. Leaves-pure e λ w g. g

  after_grace-Gone :
      (e : Option ExitStatusInfo)
      → Leaves (Registered id (some h)) (Gone id) (after_grace env id h e)
  unfolding after_grace force_kill
  after_grace-Gone (some e) = dropped-Gone (some e)
  after_grace-Gone none =
      Leaves-then _ _ (signal-Registered sigkill)
        λ a. Leaves-then _ _ (wait_timeout-Registered 5000) λ e. dropped-Gone e

  drop_handle-Finishes : Finishes (Unlocked h) (drop_handle id h)
  unfolding remove_if_handle
  drop_handle-Finishes = record { run = λ w u. ground arith }

  signal-Finishes : (sig : ℕ) → Finishes (Unlocked h) (signal env h sig)
  unfolding signal
  signal-Finishes sig = record { run = λ w u. ground arith }

  wait_timeout-Finishes : (timeout : ℕ) → Finishes (Unlocked h) (wait_timeout env h timeout)
  wait_timeout-Finishes timeout = record {
    run = λ w u. let e = wait_timeout-Ends env h timeout w u in (e.0, e.1);
  }

  after_grace-Finishes :
      (e : Option ExitStatusInfo) → Finishes (Unlocked h) (after_grace env id h e)
  unfolding after_grace force_kill
  after_grace-Finishes (some e) = search (finishes_rules, drop_handle-Finishes) depth 9
  after_grace-Finishes none =
      search (finishes_rules, drop_handle-Finishes, signal-Finishes, wait_timeout-Finishes) depth 9

module _ (env : Env) (id : InstanceId) (grace : ℕ) where
  terminate_handle-Gone :
      (k : Option ℕ) → Leaves (Registered id k) (Gone id) (terminate_handle env id grace k)
  unfolding terminate_handle
  terminate_handle-Gone none = Leaves-pure none λ w g. g
  terminate_handle-Gone (some h) =
      Leaves-then _ _ (signal-Registered env id h sigterm) λ a.
        Leaves-then _ _ (wait_timeout-Registered env id h grace) λ e. after_grace-Gone env id h e

  terminate_handle-Finishes :
      (h : ℕ) → Finishes (Unlocked h) (terminate_handle env id grace (some h))
  unfolding terminate_handle
  terminate_handle-Finishes h =
      search (finishes_rules, signal-Finishes, wait_timeout-Finishes, after_grace-Finishes) depth 9

  -- Where terminating a guest succeeds, no handle is registered for the instance any more, whether
  -- there was one before or not, and whatever the host answers.
  pub terminate_guest-unregisters :
      (w : World) (exit : Option ExitStatusInfo)
      → (terminate_guest env id grace w).0 ≡ ok exit
      → (terminate_guest env id grace w).1.registry id ≡ none
  unfolding terminate_guest ◌>>=◌ get
  terminate_guest-unregisters w exit h = (terminate_handle-Gone (w.registry id)).after w refl exit h

  -- Terminating the registered guest of an instance returns within the model's rounds, where no exit
  -- watcher holds the lock of the guest, whatever the host answers: with an exit status, with none
  -- (the guest has not ended a while after SIGKILL), or with an error.
  pub terminate_guest-ends :
      (w : World) (h : ℕ)
      → w.registry id ≡ some h
      → Unlocked h w
      → (terminate_guest env id grace w).0 ≢ stuck
  unfolding terminate_guest ◌>>=◌ get
  terminate_guest-ends w h registered u = rw registered (((terminate_handle-Finishes h).run w u).0)
