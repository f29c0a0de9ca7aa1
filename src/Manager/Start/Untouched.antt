-- ===== src/Manager/Start/Untouched.antt =====
-- cuttlefish/cfctl/src/daemon/manager.rs: starting an instance, for other instances.
use fundroid.Prelude.{ℕ, ◌≢◌, refl, Bool, true, false, Option, none, some}
use fundroid.Exec.{Result, ok, err, stuck, modify}
use fundroid.Exec.Keeps.{Keeps, Keeps-modify, keeps_rules}
use fundroid.Protocol.{Message, ErrorDetail, InstanceActionResponse, StartOptions}
use fundroid.Files.{InstanceMetadata}
use fundroid.Host.{Env, World}
use fundroid.Host.Untouched.{Untouched, Untouched-same, epoch_secs-Untouched, instant_now-Untouched}
use fundroid.Guest.Untouched.{insert-Untouched}
use fundroid.Manager.Metadata.Untouched.{metadata_rules}
use fundroid.Manager.Cleanup.Untouched.{preflight_cleanup-Untouched}
use fundroid.Manager.Launch.Untouched.{
  prepare_host_directories-Untouched, ensure_qemu_datadir-Untouched, prepare_run_log-Untouched,
  spawn_guest_process-Untouched,
}
use fundroid.Manager.Terminate.{spawn_exit_watcher}
use fundroid.Manager.Terminate.Untouched.{terminate_guest-Untouched}
use fundroid.Manager.Adb.Untouched.{wait_for_adb-Untouched, verify_boot_completed-Untouched}
use fundroid.Manager.Start.{
  secs_remaining, register, spawn_failed, spawned, launch, start_without_adb, adb_or_terminate,
  verify_if_asked, start_with_adb, start_instance,
}

module _ (env : Env) (i : ℕ) (w : World) where
  secs_remaining-Untouched : (d : Option ℕ) → Keeps (Untouched i w) (secs_remaining env d)
  unfolding secs_remaining
  secs_remaining-Untouched none = search (keeps_rules) depth 9
  secs_remaining-Untouched (some d) = search (keeps_rules, instant_now-Untouched) depth 9

  verify_if_asked-Untouched :
      (j : ℕ) (d : Option ℕ) (b : Bool) (r : InstanceActionResponse)
      → Keeps (Untouched i w) (verify_if_asked env j d b r)
  unfolding verify_if_asked
  verify_if_asked-Untouched j d false r = search (keeps_rules) depth 9
  verify_if_asked-Untouched j d true r =
      search (keeps_rules, secs_remaining-Untouched, verify_boot_completed-Untouched) depth 9

  pub spawn_exit_watcher-Untouched :
      {E : Type 0} (j h : ℕ) → Keeps (Untouched i w) (modify {E = E} (spawn_exit_watcher j h))
  unfolding spawn_exit_watcher
  spawn_exit_watcher-Untouched j h = Keeps-modify _ λ v u. Untouched-same _ u refl refl refl

module _ (env : Env) (i j : ℕ) (other : i ≢ j) (w : World) where
  register-Untouched :
      {E : Type 0} (pid : ℕ) → Keeps (Untouched i w) (modify {E = E} (register j pid))
  unfolding register
  register-Untouched pid =
      Keeps-modify _
        λ v u. insert-Untouched i j other w v.next_handle _ (Untouched-same _ u refl refl refl)

  spawn_failed-Untouched :
      (m : InstanceMetadata) (e : Message) → Keeps (Untouched i w) (spawn_failed env j m e)
  unfolding spawn_failed
  spawn_failed-Untouched m e = search (keeps_rules, metadata_rules, epoch_secs-Untouched) depth 12

  spawned-Untouched :
      (m : InstanceMetadata) (r : Result Message ℕ) → Keeps (Untouched i w) (spawned env j m r)
  unfolding spawned
  spawned-Untouched m (ok pid) = search (keeps_rules, register-Untouched) depth 9
  spawned-Untouched m (err e) = search (keeps_rules, spawn_failed-Untouched) depth 9
  spawned-Untouched m stuck = search (keeps_rules) depth 9

  pub launch-Untouched : (options : StartOptions) → Keeps (Untouched i w) (launch env j options)
  unfolding launch
  launch-Untouched options =
      search
        (
          keeps_rules, metadata_rules, epoch_secs-Untouched, preflight_cleanup-Untouched,
          prepare_host_directories-Untouched, ensure_qemu_datadir-Untouched,
          prepare_run_log-Untouched, spawn_guest_process-Untouched, spawned-Untouched,
        )
        depth 24

  pub start_without_adb-Untouched : (h : ℕ) → Keeps (Untouched i w) (start_without_adb env j h)
  unfolding start_without_adb
  start_without_adb-Untouched h =
      search (keeps_rules, metadata_rules, epoch_secs-Untouched, spawn_exit_watcher-Untouched) depth
        16

  adb_or_terminate-Untouched :
      (r : Result ErrorDetail InstanceActionResponse)
      → Keeps (Untouched i w) (adb_or_terminate env j r)
  unfolding adb_or_terminate
  adb_or_terminate-Untouched (ok r) = search (keeps_rules) depth 9
  adb_or_terminate-Untouched (err e) = search (keeps_rules, terminate_guest-Untouched) depth 9
  adb_or_terminate-Untouched stuck = search (keeps_rules) depth 9

  pub start_with_adb-Untouched :
      (options : StartOptions) (h : ℕ) → Keeps (Untouched i w) (start_with_adb env j options h)
  unfolding start_with_adb
  start_with_adb-Untouched options h =
      search
        (
          keeps_rules, instant_now-Untouched, secs_remaining-Untouched, wait_for_adb-Untouched,
          adb_or_terminate-Untouched, verify_if_asked-Untouched, spawn_exit_watcher-Untouched,
        )
        depth 20

  pub start_instance-Untouched :
      (options : StartOptions) → Keeps (Untouched i w) (start_instance env j options)
  unfolding start_instance
  start_instance-Untouched options =
      search (keeps_rules, launch-Untouched, start_without_adb-Untouched, start_with_adb-Untouched)
        depth 12
