-- ===== src/Manager/Launch/Finishes.antt =====
-- cuttlefish/cfctl/src/daemon/manager.rs: the end of launching a guest.
use fundroid.Prelude.{ℕ, arith, Bool, Option, none, some}
use fundroid.Exec.Finishes.{Finishes, finishes_rules}
use fundroid.Text.{Text}
use fundroid.Files.{Slot, InstanceMetadata}
use fundroid.Host.{Env, GuestCommand, tick}
use fundroid.Host.Unhindered.{
  Unhindered, attempt_call-Finishes, exists-Finishes, run-Finishes, create_dir_all-Finishes,
  write-Finishes,
}
use fundroid.Manager.Cleanup.Finishes.{trash_then_purge_async-Finishes}
use fundroid.Manager.Logs.Finishes.{path_present-Finishes}
use fundroid.Manager.Launch.{
  clear_dir, prepare_host_directories, ensure_qemu_datadir, prepare_run_log, resolved, started,
  spawn_guest_process,
}

module _ (env : Env) (since : ℕ) where
  resolved-Finishes : (n : Option ℕ) (name : Text) → Finishes (Unhindered since) (resolved n name)
  unfolding resolved
  resolved-Finishes none name = search finishes_rules
  resolved-Finishes (some n) name = search finishes_rules

  spawned-Finishes :
      (j : ℕ) (c : GuestCommand)
      → Finishes
          (Unhindered since)
          (λ v. started (env.spawn_guest v.calls c) j v.calls (tick env v))
  unfolding started
  spawned-Finishes j c = record {
    run = λ v u. (
      ground arith,
      record { unlocked = λ h. ground (arith, u.unlocked h); later = ground (arith, u.later) },
    );
  }

  pub ensure_qemu_datadir-Finishes : Finishes (Unhindered since) (ensure_qemu_datadir env)
  unfolding ensure_qemu_datadir
  ensure_qemu_datadir-Finishes =
      search (finishes_rules, attempt_call-Finishes, path_present-Finishes, run-Finishes) depth 12

  pub spawn_guest_process-Finishes :
      (j : ℕ) (m : InstanceMetadata) (webrtc : Bool) (track : Option Text)
      → Finishes (Unhindered since) (spawn_guest_process env j m webrtc track)
  unfolding spawn_guest_process
  spawn_guest_process-Finishes j m webrtc track =
      search
        (
          finishes_rules, attempt_call-Finishes, path_present-Finishes, resolved-Finishes,
          spawned-Finishes,
        )
        depth 12

module _ (env : Env) (since j : ℕ) where
  clear_dir-Finishes : (s : Slot) → Finishes (Unhindered since) (clear_dir env s j)
  unfolding clear_dir
  clear_dir-Finishes s =
      search (finishes_rules, exists-Finishes, trash_then_purge_async-Finishes) depth 9

  pub prepare_host_directories-Finishes :
      Finishes (Unhindered since) (prepare_host_directories env j)
  unfolding prepare_host_directories
  prepare_host_directories-Finishes =
      search (finishes_rules, attempt_call-Finishes, clear_dir-Finishes, create_dir_all-Finishes)
        depth 12

  pub prepare_run_log-Finishes : Finishes (Unhindered since) (prepare_run_log env j)
  unfolding prepare_run_log
  prepare_run_log-Finishes =
      search (finishes_rules, create_dir_all-Finishes, write-Finishes) depth 12
