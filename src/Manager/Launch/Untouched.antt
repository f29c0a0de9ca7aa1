-- ===== src/Manager/Launch/Untouched.antt =====
-- cuttlefish/cfctl/src/daemon/manager.rs: launching a guest, for other instances.
use fundroid.Prelude.{ℕ, ◌≢◌, refl, Bool, Option, none, some}
use fundroid.Exec.Keeps.{Keeps, keeps_rules}
use fundroid.Text.{Text}
use fundroid.Files.{Slot, InstanceMetadata}
use fundroid.Host.{Env, World, GuestCommand, tick}
use fundroid.Host.Untouched.{
  Untouched, Untouched-same, attempt_call-Untouched, exists-Untouched, run-Untouched,
  create_dir_all-Untouched, write-Untouched,
}
use fundroid.Manager.Cleanup.Untouched.{trash_then_purge_async-Untouched}
use fundroid.Manager.Logs.Untouched.{path_present-Untouched}
use fundroid.Manager.Launch.{
  clear_dir, prepare_host_directories, ensure_qemu_datadir, prepare_run_log, resolved, started,
  spawn_guest_process,
}

module _ (env : Env) (i : ℕ) (w : World) where
  resolved-Untouched : (n : Option ℕ) (name : Text) → Keeps (Untouched i w) (resolved n name)
  unfolding resolved
  resolved-Untouched none name = search keeps_rules
  resolved-Untouched (some n) name = search keeps_rules

  started-Untouched :
      (n : Option ℕ) (j k : ℕ) (v : World) → Untouched i w v → Untouched i w (started n j k v).1
  unfolding started
  started-Untouched none j k v u = u
  started-Untouched (some n) j k v u = u

  spawned-Untouched :
      (j : ℕ) (c : GuestCommand)
      → Keeps (Untouched i w) (λ v. started (env.spawn_guest v.calls c) j v.calls (tick env v))
  spawned-Untouched j c = record {
    run = λ v u. started-Untouched _ j v.calls _ (Untouched-same (tick env v) u refl refl refl);
  }

  pub ensure_qemu_datadir-Untouched : Keeps (Untouched i w) (ensure_qemu_datadir env)
  unfolding ensure_qemu_datadir
  ensure_qemu_datadir-Untouched =
      search (keeps_rules, attempt_call-Untouched, path_present-Untouched, run-Untouched) depth 12

  pub spawn_guest_process-Untouched :
      (j : ℕ) (m : InstanceMetadata) (webrtc : Bool) (track : Option Text)
      → Keeps (Untouched i w) (spawn_guest_process env j m webrtc track)
  unfolding spawn_guest_process
  spawn_guest_process-Untouched j m webrtc track =
      search
        (
          keeps_rules, attempt_call-Untouched, path_present-Untouched, resolved-Untouched,
          spawned-Untouched,
        )
        depth 12

module _ (env : Env) (i j : ℕ) (other : i ≢ j) (w : World) where
  clear_dir-Untouched : (s : Slot) → Keeps (Untouched i w) (clear_dir env s j)
  unfolding clear_dir
  clear_dir-Untouched s =
      search (keeps_rules, exists-Untouched, trash_then_purge_async-Untouched) depth 9

  pub prepare_host_directories-Untouched : Keeps (Untouched i w) (prepare_host_directories env j)
  unfolding prepare_host_directories
  prepare_host_directories-Untouched =
      search (keeps_rules, attempt_call-Untouched, clear_dir-Untouched, create_dir_all-Untouched)
        depth 12

  pub prepare_run_log-Untouched : Keeps (Untouched i w) (prepare_run_log env j)
  unfolding prepare_run_log
  prepare_run_log-Untouched =
      search (keeps_rules, create_dir_all-Untouched, write-Untouched) depth 12
