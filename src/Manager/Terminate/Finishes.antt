-- ===== src/Manager/Terminate/Finishes.antt =====
-- cuttlefish/cfctl/src/daemon/manager.rs: the end of ending a guest.
use fundroid.Prelude.{ℕ, Option, none, some}
use fundroid.Exec.Finishes.{Finishes, finishes_rules}
use fundroid.Protocol.{Message}
use fundroid.Files.{InstanceMetadata}
use fundroid.Host.{Env, ExitStatusInfo}
use fundroid.Host.Unhindered.{Unhindered, epoch_secs-Finishes}
use fundroid.Guest.Finishes.{wait_timeout-Finishes, signal-Finishes, remove_if_handle-Finishes}
use fundroid.Manager.Metadata.Finishes.{metadata_finishes}
use fundroid.Manager.Logs.Finishes.{guest_log_tail-Finishes}
use fundroid.Manager.Terminate.{
  drop_handle, force_kill, after_grace, terminate_handle, terminate_guest, record_launch_failure,
}

module _ (env : Env) (since j : ℕ) where
  drop_handle-Finishes : (h : ℕ) → Finishes (Unhindered since) (drop_handle j h)
  drop_handle-Finishes h = record {
    run = λ v u. ((λ e. cc), remove_if_handle-Finishes since j h v u);
  }

  force_kill-Finishes : (h : ℕ) → Finishes (Unhindered since) (force_kill env j h)
  unfolding force_kill
  force_kill-Finishes h =
      search (finishes_rules, drop_handle-Finishes, signal-Finishes, wait_timeout-Finishes) depth 9

  after_grace-Finishes :
      (h : ℕ) (e : Option ExitStatusInfo) → Finishes (Unhindered since) (after_grace env j h e)
  unfolding after_grace
  after_grace-Finishes h (some e) = search (finishes_rules, drop_handle-Finishes) depth 9
  after_grace-Finishes h none = search (finishes_rules, force_kill-Finishes) depth 9

  terminate_handle-Finishes :
      (grace : ℕ) (h : Option ℕ) → Finishes (Unhindered since) (terminate_handle env j grace h)
  unfolding terminate_handle
  terminate_handle-Finishes grace none = search (finishes_rules) depth 9
  terminate_handle-Finishes grace (some h) =
      search (finishes_rules, signal-Finishes, wait_timeout-Finishes, after_grace-Finishes) depth 9

  pub terminate_guest-Finishes :
      (grace : ℕ) → Finishes (Unhindered since) (terminate_guest env j grace)
  unfolding terminate_guest
  terminate_guest-Finishes grace = search (finishes_rules, terminate_handle-Finishes) depth 9

  pub record_launch_failure-Finishes :
      (m : InstanceMetadata) (cause : Message)
      → Finishes (Unhindered since) (record_launch_failure env j m cause)
  unfolding record_launch_failure
  record_launch_failure-Finishes m cause =
      search (finishes_rules, metadata_finishes, epoch_secs-Finishes, guest_log_tail-Finishes) depth
        12
