-- ===== src/Manager/Terminate/Disk.antt =====
-- cuttlefish/cfctl/src/daemon/manager.rs: ending a guest changes no file.
use fundroid.Prelude.{ℕ, ◌≡◌, Option, none, some, arith, ◌∙◌}
use fundroid.Exec.Keeps.{Keeps, keeps_rules}
use fundroid.Protocol.{InstanceId}
use fundroid.Files.{Slot, Node}
use fundroid.Host.{Env, World, ExitStatusInfo}
use fundroid.Host.Untouched.{Untouched-refl}
use fundroid.Guest.{signal, wait_timeout, remove_if_handle, get}
use fundroid.Guest.Untouched.{wait_timeout-Untouched, signal-Untouched}
use fundroid.Manager.Terminate.{
  terminate_guest, terminate_handle, after_grace, force_kill, drop_handle,
}

module _ (env : Env) (id : InstanceId) (s : Slot) (d : Option Node) where
  abbrev Stays : World → Type 0
  Stays v = v.disk s id ≡ d

  signal-Stays : (h sig : ℕ) → Keeps Stays (signal env h sig)
  signal-Stays h sig = record {
    run = λ w p. ((signal-Untouched env id w h sig).run w (Untouched-refl id w)).disk_at s ∙ p;
  }

  wait_timeout-Stays : (h timeout : ℕ) → Keeps Stays (wait_timeout env h timeout)
  wait_timeout-Stays h timeout = record {
    run = λ w p.
        ((wait_timeout-Untouched env id w h timeout).run w (Untouched-refl id w)).disk_at s ∙ p;
  }

  drop_handle-Stays : (h : ℕ) → Keeps Stays (drop_handle id h)
  unfolding remove_if_handle
  drop_handle-Stays h = record { run = λ w p. ground (arith, p) }

  after_grace-Stays : (h : ℕ) (e : Option ExitStatusInfo) → Keeps Stays (after_grace env id h e)
  unfolding after_grace force_kill
  after_grace-Stays h (some e) = search (keeps_rules, drop_handle-Stays)
  after_grace-Stays h none =
      search (keeps_rules, drop_handle-Stays, signal-Stays, wait_timeout-Stays) depth 9

  terminate_handle-Stays :
      (grace : ℕ) (o : Option ℕ) → Keeps Stays (terminate_handle env id grace o)
  unfolding terminate_handle
  terminate_handle-Stays grace none = search keeps_rules
  terminate_handle-Stays grace (some h) =
      search (keeps_rules, signal-Stays, wait_timeout-Stays, after_grace-Stays) depth 9

  pub terminate_guest-Stays : (grace : ℕ) → Keeps Stays (terminate_guest env id grace)
  unfolding terminate_guest get
  terminate_guest-Stays grace = search (keeps_rules, terminate_handle-Stays) depth 9
