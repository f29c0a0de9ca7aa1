-- ===== src/Manager/Terminate/Untouched.antt =====
-- cuttlefish/cfctl/src/daemon/manager.rs: ending a guest, for other instances.
use fundroid.Prelude.{ℕ, ◌≢◌, Option, none, some}
use fundroid.Exec.{Result, ok, err, stuck}
use fundroid.Exec.Keeps.{Keeps, Keeps-modify, keeps_rules}
use fundroid.Protocol.{Message}
use fundroid.Files.{Slot, InstanceMetadata, Contents}
use fundroid.Host.{Env, World, ExitStatusInfo}
use fundroid.Host.Fs
use fundroid.Host.Untouched.{Untouched, epoch_secs-Untouched, write-Untouched}
use fundroid.Guest.Untouched.{wait_timeout-Untouched, signal-Untouched, remove_if_handle-Untouched}
use fundroid.Manager.Metadata.Untouched.{metadata_rules}
use fundroid.Manager.Cleanup.Untouched.{cleanup_host_state-Untouched}
use fundroid.Manager.Logs.Untouched.{guest_log_tail-Untouched, path_present-Untouched}
use fundroid.Manager.Terminate.{
  drop_handle, force_kill, after_grace, terminate_handle, terminate_guest, record_launch_failure,
  snapshot_console_on_failure, exited, handle_guest_exit,
}

module _ (env : Env) (i j : ℕ) (other : i ≢ j) (w : World) where
  drop_handle-Untouched : (h : ℕ) → Keeps (Untouched i w) (drop_handle j h)
  drop_handle-Untouched h = Keeps-modify _ (remove_if_handle-Untouched i j other w h)

  force_kill-Untouched : (h : ℕ) → Keeps (Untouched i w) (force_kill env j h)
  unfolding force_kill
  force_kill-Untouched h =
      search (keeps_rules, drop_handle-Untouched, signal-Untouched, wait_timeout-Untouched) depth 9

  after_grace-Untouched :
      (h : ℕ) (e : Option ExitStatusInfo) → Keeps (Untouched i w) (after_grace env j h e)
  unfolding after_grace
  after_grace-Untouched h (some e) = search (keeps_rules, drop_handle-Untouched) depth 9
  after_grace-Untouched h none = search (keeps_rules, force_kill-Untouched) depth 9

  terminate_handle-Untouched :
      (grace : ℕ) (h : Option ℕ) → Keeps (Untouched i w) (terminate_handle env j grace h)
  unfolding terminate_handle
  terminate_handle-Untouched grace none = search (keeps_rules) depth 9
  terminate_handle-Untouched grace (some h) =
      search (keeps_rules, signal-Untouched, wait_timeout-Untouched, after_grace-Untouched) depth 9

  pub terminate_guest-Untouched : (grace : ℕ) → Keeps (Untouched i w) (terminate_guest env j grace)
  unfolding terminate_guest
  terminate_guest-Untouched grace = search (keeps_rules, terminate_handle-Untouched) depth 9

  pub record_launch_failure-Untouched :
      (m : InstanceMetadata) (cause : Message)
      → Keeps (Untouched i w) (record_launch_failure env j m cause)
  unfolding record_launch_failure
  record_launch_failure-Untouched m cause =
      search (keeps_rules, metadata_rules, epoch_secs-Untouched, guest_log_tail-Untouched) depth 12

  copied-Untouched :
      (s : Slot) (c : World → Contents) → Keeps (Untouched i w) (λ v. Fs.write env s j (c v) v)
  copied-Untouched s c = record { run = λ v u. (write-Untouched env i j other w s (c v)).run v u }

  pub snapshot_console_on_failure-Untouched :
      Keeps (Untouched i w) (snapshot_console_on_failure env j)
  unfolding snapshot_console_on_failure
  snapshot_console_on_failure-Untouched =
      search (keeps_rules, path_present-Untouched, copied-Untouched) depth 9

  exited-Untouched :
      (e : ExitStatusInfo) (r : Result Message InstanceMetadata)
      → Keeps (Untouched i w) (exited env j e r)
  unfolding exited
  exited-Untouched e (ok m) =
      search
        (
          keeps_rules, metadata_rules, epoch_secs-Untouched, snapshot_console_on_failure-Untouched,
          cleanup_host_state-Untouched,
        )
        depth 16
  exited-Untouched e (err x) = search (keeps_rules, metadata_rules) depth 16
  exited-Untouched e stuck = search (keeps_rules, metadata_rules) depth 16

  pub handle_guest_exit-Untouched :
      (e : ExitStatusInfo) → Keeps (Untouched i w) (handle_guest_exit env j e)
  unfolding handle_guest_exit
  handle_guest_exit-Untouched e = search (keeps_rules, metadata_rules, exited-Untouched) depth 9
