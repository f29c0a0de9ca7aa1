-- ===== src/Manager/Adb/Untouched.antt =====
-- cuttlefish/cfctl/src/daemon/manager.rs: polling a guest over adb, for other instances.
use fundroid.Prelude.{ℕ, zero, suc, String, ◌≢◌, Option, none, some}
use fundroid.Exec.{Result, ok, err, stuck, modify}
use fundroid.Exec.Keeps.{Keeps, Keeps-bind, Keeps-modify, keeps_rules}
use fundroid.Text.{Text}
use fundroid.Protocol.{Message, ErrorDetail, InstanceActionResponse, BootVerificationResult}
use fundroid.Files.{InstanceMetadata}
use fundroid.Host.{Env, World, ExitStatusInfo, Command}
use fundroid.Host.Untouched.{
  Untouched, epoch_secs-Untouched, instant_now-Untouched, sleep_ms-Untouched, run-Untouched,
}
use fundroid.Guest.{remove_if_handle}
use fundroid.Guest.Untouched.{try_wait-Untouched, remove_if_handle-Untouched}
use fundroid.Manager.Metadata.Untouched.{metadata_rules}
use fundroid.Manager.Logs.Untouched.{
  console_log_has_boot_marker-Untouched, run_log_has_boot_marker-Untouched,
}
use fundroid.Manager.Terminate.Untouched.{
  terminate_guest-Untouched, record_launch_failure-Untouched,
}
use fundroid.Manager.Adb.{
  Detailed, run_checked, adb_connect, adb_shell_getprop, resolve_active_adb_serial, launch_failed,
  adb_not_ready, adb_ready, adb_devices, adb_connected, adb_polled, adb_handle, adb_loop,
  wait_for_adb, boot_not_ready, logs_or_again, boot_property, boot_serial, boot_connected,
  boot_loop, verify_boot_completed,
}

module _ (env : Env) (i : ℕ) (w : World) where
  run_checked-Untouched : (c : Command) → Keeps (Untouched i w) (run_checked env c)
  unfolding run_checked
  run_checked-Untouched c = search (keeps_rules, run-Untouched) depth 9

  pub adb_connect-Untouched : (s : Text) → Keeps (Untouched i w) (adb_connect env s)
  unfolding adb_connect
  adb_connect-Untouched s = search (keeps_rules, run_checked-Untouched) depth 9

  pub adb_shell_getprop-Untouched :
      (s : Text) (p : Text) → Keeps (Untouched i w) (adb_shell_getprop env s p)
  unfolding adb_shell_getprop
  adb_shell_getprop-Untouched s p = search (keeps_rules, run_checked-Untouched) depth 9

  pub resolve_active_adb_serial-Untouched :
      (a : Text) (b : Text) → Keeps (Untouched i w) (resolve_active_adb_serial env a b)
  unfolding resolve_active_adb_serial
  resolve_active_adb_serial-Untouched a b = search (keeps_rules, run_checked-Untouched) depth 9

  boot_not_ready-Untouched :
      (deadline pause : ℕ) (again : Detailed BootVerificationResult) (detail : ErrorDetail)
      → Keeps (Untouched i w) again
      → Keeps (Untouched i w) (boot_not_ready env deadline pause again detail)
  unfolding boot_not_ready
  boot_not_ready-Untouched deadline pause again detail k =
      search (keeps_rules, instant_now-Untouched, sleep_ms-Untouched) depth 12

  logs_or_again-Untouched :
      (j deadline pause : ℕ) (again : Detailed BootVerificationResult) (detail : ErrorDetail)
      → Keeps (Untouched i w) again
      → Keeps (Untouched i w) (logs_or_again env j deadline pause again detail)
  unfolding logs_or_again
  logs_or_again-Untouched j deadline pause again detail k =
      search
        (
          keeps_rules, console_log_has_boot_marker-Untouched, run_log_has_boot_marker-Untouched,
          boot_not_ready-Untouched,
        )
        depth 12

  boot_property-Untouched :
      (j deadline : ℕ) (again : Detailed BootVerificationResult) (r : Result Message Text)
      → Keeps (Untouched i w) again
      → Keeps (Untouched i w) (boot_property env j deadline again r)
  unfolding boot_property
  boot_property-Untouched j deadline again (ok v) k =
      search (keeps_rules, logs_or_again-Untouched) depth 12
  boot_property-Untouched j deadline again (err e) k =
      search (keeps_rules, logs_or_again-Untouched) depth 12
  boot_property-Untouched j deadline again stuck k = search (keeps_rules) depth 12

  boot_serial-Untouched :
      (j : ℕ) (m : InstanceMetadata) (deadline : ℕ) (again : Detailed BootVerificationResult)
      (r : Result Message (Option Text))
      → Keeps (Untouched i w) again
      → Keeps (Untouched i w) (boot_serial env j m deadline again r)
  unfolding boot_serial
  boot_serial-Untouched j m deadline again (ok none) k =
      search (keeps_rules, boot_not_ready-Untouched) depth 12
  boot_serial-Untouched j m deadline again (ok (some s)) k =
      search (keeps_rules, boot_property-Untouched, adb_shell_getprop-Untouched) depth 12
  boot_serial-Untouched j m deadline again (err e) k =
      search (keeps_rules, boot_not_ready-Untouched) depth 12
  boot_serial-Untouched j m deadline again stuck k = search (keeps_rules) depth 12

  boot_connected-Untouched :
      (j : ℕ) (m : InstanceMetadata) (deadline : ℕ) (again : Detailed BootVerificationResult)
      (r : Result Message (Unit {0}))
      → Keeps (Untouched i w) again
      → Keeps (Untouched i w) (boot_connected env j m deadline again r)
  unfolding boot_connected
  boot_connected-Untouched j m deadline again (ok x) k =
      search (keeps_rules, boot_serial-Untouched, resolve_active_adb_serial-Untouched) depth 12
  boot_connected-Untouched j m deadline again (err e) k =
      search (keeps_rules, boot_not_ready-Untouched) depth 12
  boot_connected-Untouched j m deadline again stuck k = search (keeps_rules) depth 12

  pub boot_loop-Untouched :
      (fuel j : ℕ) (m : InstanceMetadata) (deadline : ℕ)
      → Keeps (Untouched i w) (boot_loop fuel env j m deadline)
  unfolding boot_loop
  boot_loop-Untouched zero j m deadline = search keeps_rules
  boot_loop-Untouched (suc fuel) j m deadline =
      Keeps-bind _ _ (search (keeps_rules, adb_connect-Untouched))
        λ r. boot_connected-Untouched j m deadline _ r (boot_loop-Untouched fuel j m deadline)

  pub verify_boot_completed-Untouched :
      (j : ℕ) (t : Option ℕ) → Keeps (Untouched i w) (verify_boot_completed env j t)
  unfolding verify_boot_completed
  verify_boot_completed-Untouched j t =
      search (keeps_rules, metadata_rules, instant_now-Untouched, boot_loop-Untouched) depth 12

module _ (env : Env) (i j : ℕ) (other : i ≢ j) (w : World) where
  launch_failed-Untouched :
      (m : InstanceMetadata) (code : String) (cause : Message)
      → Keeps (Untouched i w) (launch_failed env j m code cause)
  unfolding launch_failed
  launch_failed-Untouched m code cause =
      search (keeps_rules, record_launch_failure-Untouched) depth 9

  adb_not_ready-Untouched :
      (m : InstanceMetadata) (deadline : ℕ) (again : Detailed InstanceActionResponse)
      (cause : Message)
      → Keeps (Untouched i w) again
      → Keeps (Untouched i w) (adb_not_ready env j m deadline again cause)
  unfolding adb_not_ready
  adb_not_ready-Untouched m deadline again cause k =
      search
        (
          keeps_rules, instant_now-Untouched, sleep_ms-Untouched, terminate_guest-Untouched,
          launch_failed-Untouched,
        )
        depth 12

  adb_ready-Untouched : (m : InstanceMetadata) → Keeps (Untouched i w) (adb_ready env j m)
  unfolding adb_ready
  adb_ready-Untouched m = search (keeps_rules, metadata_rules, epoch_secs-Untouched) depth 12

  adb_devices-Untouched :
      (m : InstanceMetadata) (deadline : ℕ) (again : Detailed InstanceActionResponse)
      (r : Result Message (Option Text))
      → Keeps (Untouched i w) again
      → Keeps (Untouched i w) (adb_devices env j m deadline again r)
  unfolding adb_devices
  adb_devices-Untouched m deadline again (ok none) k =
      search (keeps_rules, adb_not_ready-Untouched) depth 12
  adb_devices-Untouched m deadline again (ok (some s)) k =
      search (keeps_rules, adb_ready-Untouched) depth 12
  adb_devices-Untouched m deadline again (err e) k =
      search (keeps_rules, adb_not_ready-Untouched) depth 12
  adb_devices-Untouched m deadline again stuck k = search (keeps_rules) depth 12

  adb_connected-Untouched :
      (m : InstanceMetadata) (deadline : ℕ) (again : Detailed InstanceActionResponse)
      (r : Result Message (Unit {0}))
      → Keeps (Untouched i w) again
      → Keeps (Untouched i w) (adb_connected env j m deadline again r)
  unfolding adb_connected
  adb_connected-Untouched m deadline again (ok x) k =
      search (keeps_rules, adb_devices-Untouched, resolve_active_adb_serial-Untouched) depth 12
  adb_connected-Untouched m deadline again (err e) k =
      search (keeps_rules, adb_not_ready-Untouched) depth 12
  adb_connected-Untouched m deadline again stuck k = search (keeps_rules) depth 12

  drop_handle-Untouched :
      {E : Type 0} (h : ℕ) → Keeps (Untouched i w) (modify {E = E} (remove_if_handle j h))
  drop_handle-Untouched h = Keeps-modify _ (remove_if_handle-Untouched i j other w h)

  adb_polled-Untouched :
      (m : InstanceMetadata) (deadline : ℕ) (again : Detailed InstanceActionResponse) (h : ℕ)
      (e : Option ExitStatusInfo)
      → Keeps (Untouched i w) again
      → Keeps (Untouched i w) (adb_polled env j m deadline again h e)
  unfolding adb_polled
  adb_polled-Untouched m deadline again h none k =
      search (keeps_rules, adb_connect-Untouched, adb_connected-Untouched) depth 12
  adb_polled-Untouched m deadline again h (some e) k =
      search (keeps_rules, launch_failed-Untouched, drop_handle-Untouched) depth 12

  adb_handle-Untouched :
      (m : InstanceMetadata) (deadline : ℕ) (again : Detailed InstanceActionResponse) (h : Option ℕ)
      → Keeps (Untouched i w) again
      → Keeps (Untouched i w) (adb_handle env j m deadline again h)
  unfolding adb_handle
  adb_handle-Untouched m deadline again none k =
      search (keeps_rules, launch_failed-Untouched) depth 12
  adb_handle-Untouched m deadline again (some h) k =
      search (keeps_rules, adb_polled-Untouched, try_wait-Untouched) depth 12

  pub adb_loop-Untouched :
      (fuel : ℕ) (m : InstanceMetadata) (deadline : ℕ)
      → Keeps (Untouched i w) (adb_loop fuel env j m deadline)
  unfolding adb_loop
  adb_loop-Untouched zero m deadline = search keeps_rules
  adb_loop-Untouched (suc fuel) m deadline =
      Keeps-bind _ _ (search keeps_rules)
        λ h. adb_handle-Untouched m deadline _ h (adb_loop-Untouched fuel m deadline)

  pub wait_for_adb-Untouched : (t : Option ℕ) → Keeps (Untouched i w) (wait_for_adb env j t)
  unfolding wait_for_adb
  wait_for_adb-Untouched t =
      search (keeps_rules, metadata_rules, instant_now-Untouched, adb_loop-Untouched) depth 12
