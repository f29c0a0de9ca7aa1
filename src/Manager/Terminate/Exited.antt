-- ===== src/Manager/Terminate/Exited.antt =====
-- cuttlefish/cfctl/src/daemon/manager.rs: what the exit watcher of a guest records when it ends.
use fundroid.Prelude.{
  ℕ, zero, suc, ◌≢◌, ◌⊎◌, inl, inr, false, not, ◌≡◌, refl, Option, none, some, if◌then◌else◌, ◌==◌,
  arith, subst, ap, ◌∙◌, sym,
}
use fundroid.Prelude.Table
use fundroid.Prelude.Table.{Table}
use fundroid.Exec.{Result, ok, caught, pure, attempt, ◌>>=◌}
use fundroid.Exec.Keeps.{Keeps, Keeps-bind, Keeps-if, Keeps-pure, Keeps-attempt, Keeps-map_err}
use fundroid.Exec.Returns.{ok-injective}
use fundroid.Exec.Leaves.{Leaves, Leaves-bind, Leaves-then, Leaves-pure}
use fundroid.Protocol.{Message, InstanceId, InstanceState, stopped, failed}
use fundroid.Files.{InstanceMetadata, Contents, console_snapshot}
use fundroid.Host.{Env, World, ExitStatusInfo}
use fundroid.Host.Fs
use fundroid.Host.Os.{epoch_secs}
use fundroid.Guest.{is_zero, success, remove_if_handle}
use fundroid.Manager.Metadata.{metadata, write_metadata, by_new_manager}
use fundroid.Manager.Metadata.Recorded.{
  OnDisk, Recorded, write_metadata-Leaves, write_metadata-registry,
}
use fundroid.Manager.Metadata.Source.{metadata-Keeps}
use fundroid.Manager.Cleanup.{cleanup_host_state}
use fundroid.Manager.Cleanup.Settled.{
  Respects, Untouched-Keeps, cleanup_host_state-Recorded, cleanup_host_state-Registered,
}
use fundroid.Manager.Logs.{console_log_path}
use fundroid.Manager.Logs.Untouched.{path_present-Untouched}
use fundroid.Manager.Terminate.{
  exit_state, exited, handle_guest_exit, snapshot_console_on_failure, wait, watched,
  run_exit_watcher,
}

module _ (env : Env) (id : InstanceId) (r : Option ℕ) where
  abbrev Registered : World → Type 0
  Registered v = v.registry id ≡ r

  Registered-Respects : Respects id Registered
  Registered-Respects w v u p = u.registry_at ∙ p

  copied-Registered :
      (c : World → Contents) → Keeps Registered (λ v. Fs.write env console_snapshot id (c v) v)
  unfolding Fs.write
  copied-Registered c = record { run = λ v p. ground (arith, p) }

  snapshot-Registered : Keeps Registered (snapshot_console_on_failure env id)
  unfolding snapshot_console_on_failure
  snapshot-Registered =
      Keeps-bind _ _
        (Untouched-Keeps id Registered _ Registered-Respects
          λ w. path_present-Untouched env id w (console_log_path env id))
        λ present.
          Keeps-if (not present) (pure {E = Message} tt) _ (Keeps-pure tt)
            (Keeps-map_err _ _ (copied-Registered _))

  recorded-Registered :
      (m : InstanceMetadata)
      → Leaves Registered (λ a v. OnDisk id m v × Registered v) (write_metadata env id m)
  recorded-Registered m = record {
    after = λ w p a h.
        ((write_metadata-Leaves env id m).after w tt a h, write_metadata-registry env id m w ∙ p);
  }

  -- What is recorded of a guest that ended.
  abbrev Ended : ExitStatusInfo → InstanceMetadata → World → Type 0
  Ended exit old v =
      (now : ℕ) × OnDisk id (record old { state = exit_state exit; updated_at = now }) v
      × Registered v

  cleaned-Settled :
      (m : InstanceMetadata)
      → Keeps (λ v. Recorded id m v × Registered v) (cleanup_host_state env id)
  cleaned-Settled m = record {
    run = λ w p. (
      (cleanup_host_state-Recorded env id m).run w p.0,
      (cleanup_host_state-Registered env id r).run w p.1,
    );
  }

  exited-Ended :
      (exit : ExitStatusInfo) (old : InstanceMetadata)
      → Leaves Registered (λ a. Ended exit old) (exited env id exit (ok old))
  unfolding exited epoch_secs
  exited-Ended exit old =
      Leaves-then _ _ (record { run = λ w p. p })
        λ now.
          Leaves-then _ _
            (Keeps-if (success exit) (pure {E = Message} tt) _ (Keeps-pure tt) (
              Keeps-bind _ _ (Keeps-attempt {F = Message} _ snapshot-Registered)
                λ u. Keeps-pure tt))
            λ a. Leaves-bind _ _ (recorded-Registered _) λ b.
              Leaves-bind {R = λ c v. Recorded id _ v × Registered v} _ _
                (record { after = λ w p c h. ((ground arith, p.0), p.1) })
                λ c.
                  Leaves-then _ _ (cleaned-Settled _)
                    λ outcome. Leaves-pure _ λ w p. (now, p.0.1, p.1)

  exited-known :
      (exit : ExitStatusInfo) (old : InstanceMetadata) (result : Result Message InstanceMetadata)
      → result ≡ ok old
      → Leaves Registered (λ a. Ended exit old) (exited env id exit result)
  exited-known exit old result known =
      subst (λ x. Leaves Registered (λ a. Ended exit old) (exited env id exit x)) (sym known)
        (exited-Ended exit old)

  handle_guest_exit-Ended :
      (exit : ExitStatusInfo) (old : InstanceMetadata) (w : World)
      → (metadata env id w).0 ≡ ok old
      → Leaves (λ s. (s ≡ w) × Registered s) (λ a. Ended exit old) (handle_guest_exit env id exit)
  unfolding handle_guest_exit attempt
  handle_guest_exit-Ended exit old w known =
      Leaves-bind {R = λ result v. (result ≡ ok old) × Registered v} _ _
        (record {
          after = λ s p result h. (
            ok-injective (caught (metadata env id s).0) h (rw (p.0, known) refl),
            (metadata-Keeps env Registered (λ v p. p) id).run s p.1,
          );
        })
        λ result. record { after = λ s p a h. (exited-known exit old result p.0).after s p.1 a h }

-- What a state says of an exit: stopped after the code 0 and no signal, failed after anything else.
abbrev pub Tells : ExitStatusInfo → InstanceState → Type 0
Tells exit state =
    (exit.code ≡ some 0 → exit.signal ≡ none → state ≡ stopped)
    × (exit.code ≢ some 0 → state ≡ failed)
    × ((sig : ℕ) → exit.signal ≡ some sig → state ≡ failed)

zero-or_not : (o : Option ℕ) → (o ≡ some 0) ⊎ ((o ≢ some 0) × (is_zero o ≡ false))
zero-or_not none = inr ((λ e. cc), refl)
zero-or_not (some zero) = inl refl
zero-or_not (some (suc n)) = inr ((λ e. cc), ground arith)

exit_state-Tells : (exit : ExitStatusInfo) → Tells exit (exit_state exit)
unfolding exit_state success
exit_state-Tells exit = (
  λ code signal. rw (code, signal) refl,
  λ code. elim (zero-or_not exit.code) [
    | inl zero_code ↦ absurd (code zero_code)
    | inr (other, e) ↦ rw e refl
  ],
  λ sig signal. elim (zero-or_not exit.code) [
    | inl zero_code ↦ rw (zero_code, signal) refl
    | inr (other, e) ↦ rw e refl
  ],
)

module _ (env : Env) (id : InstanceId) (h : ℕ) where
  -- The watcher's own state when it handles the end: the handle is dropped, and its manager is new.
  abbrev pub handling : World → World
  handling w = record (remove_if_handle id h (wait env h w).1) { cache = Table.empty }

  wait-registry : (w : World) → (wait env h w).1.registry ≡ w.registry
  unfolding wait
  wait-registry w = ground arith

  handling-registry :
      (w : World) (g : ℕ)
      → w.registry id ≡ some g
      → (handling w).registry id ≡ (if g == h then none else some g)
  unfolding remove_if_handle
  handling-registry w g registered =
      let e : (wait env h w).1.registry id ≡ some g =
        ap (λ (t : Table ℕ). t id) (wait-registry w) ∙ registered in
      ground (arith, e)

  run_exit_watcher-runs :
      (w : World) (exit : ExitStatusInfo)
      → (wait env h w).0 ≡ ok exit
      → (handle_guest_exit env id exit (handling w)).0 ≡ ok tt
      → (run_exit_watcher env id h w).1 ≡ record (handle_guest_exit env id exit (handling w)).1 {
        cache = (remove_if_handle id h (wait env h w).1).cache;
      }
  unfolding run_exit_watcher watched ◌>>=◌ attempt by_new_manager
  run_exit_watcher-runs w exit waited handled = rw (waited, handled) refl

  -- When the guest of a watcher ends while some handle is registered, and its manager reads the
  -- metadata and handles the end without an error, the metadata file has the old metadata with another
  -- time and the state stopped, if the guest exited with 0 and by no signal, or else failed. It has
  -- them whichever handle is registered; the handle goes only if it is the watcher's own.
  pub run_exit_watcher-records :
      (w : World) (exit : ExitStatusInfo) (old : InstanceMetadata) (g : ℕ)
      → (wait env h w).0 ≡ ok exit
      → (metadata env id (handling w)).0 ≡ ok old
      → (handle_guest_exit env id exit (handling w)).0 ≡ ok tt
      → w.registry id ≡ some g
      → (state : InstanceState) × (now : ℕ) × Tells exit state
        × OnDisk id (record old { state = state; updated_at = now }) (run_exit_watcher env id h w).1
        × ((run_exit_watcher env id h w).1.registry id ≡ (if g == h then none else some g))
  run_exit_watcher-records w exit old g waited known handled registered =
      let ended =
        (handle_guest_exit-Ended env id ((handling w).registry id) exit old (handling w)
            known).after
          (handling w) (refl, refl) tt handled in
      let runs = run_exit_watcher-runs w exit waited handled in
      (
        exit_state exit,
        ended.0,
        exit_state-Tells exit,
        rw runs ended.1,
        rw runs (ended.2 ∙ handling-registry w g registered),
      )
