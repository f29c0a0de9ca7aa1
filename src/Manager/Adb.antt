-- ===== src/Manager/Adb.antt =====
-- cuttlefish/cfctl/src/daemon/manager.rs: what the daemon asks adb, and the two loops that poll it,
-- `wait_for_adb` and `verify_boot_completed`. Times are in milliseconds.
pub mod Untouched
pub mod Finishes
use fundroid.Prelude.{
  ℕ, zero, suc, ◌+◌, ◌*◌, ◌/◌, Bool, true, ◌&&◌, ◌||◌, String, Option, none, some, List, [], ◌∷◌,
  ltb, leb, if◌then◌else◌, unwrap_or,
}
use fundroid.Exec.{
  Exec, Result, ok, err, stuck, hang, pure, fail, gets, modify, map_err, attempt, ◌>>=◌, ◌>>◌,
}
use fundroid.Text.{Text, text_eq, trim, lines, split_whitespace}
use fundroid.Protocol.{
  Message, plain, formatted, quoting, context, InstanceId, running, InstanceActionResponse,
  BootVerificationResult, ErrorDetail,
}
use fundroid.Files.{InstanceMetadata}
use fundroid.Host.{ExitStatusInfo, Env, World, Action, Command}
use fundroid.Host.Os.{epoch_secs, instant_now, sleep_ms, run}
use fundroid.Guest.{success, describe, try_wait, get, remove_if_handle}
use fundroid.Manager.Metadata.{serial_of, error_detail, cache_insert, metadata, write_metadata}
use fundroid.Manager.Cleanup.{lit}
use fundroid.Manager.Alloc.{plain_response}
use fundroid.Manager.Logs.{console_log_has_boot_marker, run_log_has_boot_marker}
use fundroid.Manager.Terminate.{terminate_guest, record_launch_failure}

abbrev adb : Env → List Text → Command
adb env args = record { program = env.cuttlefish_fhs; args = lit "--" ∷ lit "adb" ∷ args }

-- A program that must succeed; its standard output.
run_checked : Env → Command → Action Text
run_checked env c = do
  out ← map_err (context (quoting "invoking {}" c.args)) (run env c)
  if success out.status then pure out.stdout else fail (quoting "{} failed" c.args)

unfoldable pub adb_connect : Env → Text → Action (Unit {0})
unfolding run_checked
adb_connect env serial = do run_checked env (adb env (lit "connect" ∷ serial ∷ [])); pure tt

unfoldable pub adb_shell_getprop : Env → Text → Text → Action Text
unfolding run_checked
adb_shell_getprop env serial property =
    run_checked env (adb env (lit "-s" ∷ serial ∷ lit "shell" ∷ lit "getprop" ∷ property ∷ []))

abbrev status_of : List Text → Text
status_of [] = []
status_of (s ∷ _) = s

-- The entry of a line of `adb devices`, if it is one of the two serials and ready.
active_entry : Text → Text → List Text → Option Text
active_entry a b [] = none
active_entry a b (entry ∷ rest) =
    if (text_eq entry a || text_eq entry b) && text_eq (status_of rest) (lit "device")
    then some entry
    else none

abbrev or_else {ℓ} : {A : Type ℓ} → Option A → Option A → Option A
or_else none b = b
or_else (some a) b = some a

-- The first such entry.
unfoldable pub find_active : Text → Text → List Text → Option Text
unfolding active_entry
find_active a b [] = none
find_active a b (l ∷ ls) = or_else (active_entry a b (split_whitespace l)) (find_active a b ls)

-- The first line is a heading.
abbrev skip_first : List Text → List Text
skip_first [] = []
skip_first (l ∷ ls) = ls

unfoldable pub resolve_active_adb_serial : Env → Text → Text → Action (Option Text)
unfolding run_checked
resolve_active_adb_serial env a b = do
  out ← run_checked env (adb env (lit "devices" ∷ []))
  pure (find_active a b (skip_first (lines out)))

abbrev pub serial_for : Env → InstanceMetadata → Text
serial_for env m = serial_of env.adb_host m.adb_port

abbrev pub connect_serial_for : Env → InstanceMetadata → Text
connect_serial_for env m = serial_of (lit "0.0.0.0") m.adb_port

abbrev Detailed : Type 0 → Type 0
Detailed = Exec World ErrorDetail

failure_text : Result Message Message → Message
failure_text (ok cause) = cause
failure_text (err e) = context (plain "record failed") e
failure_text stuck = plain "record failed"

-- Records the failure and ends the loop with its code.
launch_failed :
    Env → InstanceId → InstanceMetadata → String → Message → Detailed InstanceActionResponse
unfolding failure_text
launch_failed env id m code cause = do
  recorded ← attempt (record_launch_failure env id m cause)
  fail (error_detail code (failure_text recorded))

-- A round that found no device: the deadline ends the loop, or it sleeps and goes on.
adb_not_ready :
    Env
    → InstanceId
    → InstanceMetadata
    → ℕ
    → Detailed InstanceActionResponse
    → Message
    → Detailed InstanceActionResponse
unfolding launch_failed
adb_not_ready env id m deadline again cause = do
  now ← instant_now env
  if leb deadline now
      then (do
        attempt {F = ErrorDetail} (terminate_guest env id 2000)
        launch_failed env id m "wait_for_adb_timeout" cause)
      else (do sleep_ms env 1000; again)

adb_ready : Env → InstanceId → InstanceMetadata → Detailed InstanceActionResponse
adb_ready env id m = do
  now ← map_err (error_detail "wait_for_adb_time") (epoch_secs env)
  let up = record m { state = running; updated_at = now }
  map_err (error_detail "wait_for_adb_write_metadata") (write_metadata env id up)
  cache_insert id up
  pure (plain_response env up)

adb_devices :
    Env
    → InstanceId
    → InstanceMetadata
    → ℕ
    → Detailed InstanceActionResponse
    → Result Message (Option Text)
    → Detailed InstanceActionResponse
unfolding adb_not_ready adb_ready
adb_devices env id m deadline again (ok (some serial)) = adb_ready env id m
adb_devices env id m deadline again (ok none) =
    adb_not_ready env id m deadline again
      (quoting "timeout waiting for adb device {}" (serial_for env m ∷ []))
adb_devices env id m deadline again (err e) =
    adb_not_ready env id m deadline again
      (context (quoting "adb devices never succeeded for {}" (serial_for env m ∷ [])) e)
adb_devices env id m deadline again stuck = hang

adb_connected :
    Env
    → InstanceId
    → InstanceMetadata
    → ℕ
    → Detailed InstanceActionResponse
    → Result Message (Unit {0})
    → Detailed InstanceActionResponse
unfolding adb_devices
adb_connected env id m deadline again (err e) =
    adb_not_ready env id m deadline again
      (context (quoting "timeout waiting for adb on {}" (serial_for env m ∷ [])) e)
adb_connected env id m deadline again (ok _) = do
  found ← attempt (resolve_active_adb_serial env (serial_for env m) (connect_serial_for env m))
  adb_devices env id m deadline again found
adb_connected env id m deadline again stuck = hang

adb_polled :
    Env
    → InstanceId
    → InstanceMetadata
    → ℕ
    → Detailed InstanceActionResponse
    → ℕ
    → Option ExitStatusInfo
    → Detailed InstanceActionResponse
unfolding adb_connected
adb_polled env id m deadline again h (some exit) = do
  modify (remove_if_handle id h)
  launch_failed env id m "wait_for_adb_guest_exit"
      (context (formatted "instance {} exited before adb became ready" (id ∷ [])) (describe exit))
adb_polled env id m deadline again h none = do
  connected ← attempt (adb_connect env (connect_serial_for env m))
  adb_connected env id m deadline again connected

adb_handle :
    Env
    → InstanceId
    → InstanceMetadata
    → ℕ
    → Detailed InstanceActionResponse
    → Option ℕ
    → Detailed InstanceActionResponse
unfolding adb_polled
adb_handle env id m deadline again none =
    launch_failed env id m "wait_for_adb_handle_lost"
      (formatted "instance {} lost guest handle before adb became ready" (id ∷ []))
adb_handle env id m deadline again (some h) = do
  exit ← map_err (error_detail "wait_for_adb_wait") (try_wait env h)
  adb_polled env id m deadline again h exit

-- The loop of `wait_for_adb`.
unfoldable pub adb_loop :
    ℕ → Env → InstanceId → InstanceMetadata → ℕ → Detailed InstanceActionResponse
unfolding adb_handle
adb_loop zero env id m deadline = hang
adb_loop (suc fuel) env id m deadline = do
  handle ← gets (get id)
  adb_handle env id m deadline (adb_loop fuel env id m deadline) handle

-- A round of the loop sleeps for a second.
unfoldable pub wait_for_adb : Env → InstanceId → Option ℕ → Detailed InstanceActionResponse
wait_for_adb env id timeout_secs = do
  m ← map_err (error_detail "wait_for_adb_metadata") (metadata env id)
  now ← instant_now env
  let timeout = 1000 * unwrap_or timeout_secs env.adb_wait_timeout
  adb_loop (suc (suc (timeout / 1000))) env id m (now + timeout)

abbrev verified : BootVerificationResult
verified = record { adb_ready = true; boot_marker_observed = true; failure_reason = none }

-- A round that learnt nothing: the deadline ends the loop with an error, or it sleeps and goes on.
boot_not_ready :
    Env → ℕ → ℕ → Detailed BootVerificationResult → ErrorDetail → Detailed BootVerificationResult
boot_not_ready env deadline pause again detail = do
  now ← instant_now env
  if leb deadline now then fail detail else (do sleep_ms env pause; again)

-- One of the two logs shows the marker, or the round learnt nothing.
logs_or_again :
    Env
    → InstanceId
    → ℕ
    → ℕ
    → Detailed BootVerificationResult
    → ErrorDetail
    → Detailed BootVerificationResult
unfolding boot_not_ready
logs_or_again env id deadline pause again detail = do
  on_console ← console_log_has_boot_marker env id
  if on_console then pure verified else (do
    on_run_log ← run_log_has_boot_marker env id
    if on_run_log then pure verified else boot_not_ready env deadline pause again detail)

abbrev is_booted : Text → Bool
is_booted value =
    text_eq value (lit "1") || text_eq value (lit "true") || text_eq value (lit "TRUE")

boot_property :
    Env
    → InstanceId
    → ℕ
    → Detailed BootVerificationResult
    → Result Message Text
    → Detailed BootVerificationResult
unfolding logs_or_again
boot_property env id deadline again (err e) = logs_or_again env id deadline 500 again (
    error_detail "verify_boot_adb_failed"
      (context (formatted "adb getprop never succeeded for instance {}" (id ∷ [])) e))
boot_property env id deadline again (ok value) =
    if is_booted (trim value)
    then pure verified
    else logs_or_again env id deadline 1000 again (
        error_detail "verify_boot_marker_missing" (
          context (formatted "VIRTUAL_DEVICE_BOOT_COMPLETED not observed for instance {}" (id ∷ []))
            (quoting "last value: {:?}" (trim value ∷ []))))
boot_property env id deadline again stuck = hang

boot_serial :
    Env
    → InstanceId
    → InstanceMetadata
    → ℕ
    → Detailed BootVerificationResult
    → Result Message (Option Text)
    → Detailed BootVerificationResult
unfolding boot_property
boot_serial env id m deadline again (ok none) = boot_not_ready env deadline 500 again (
    error_detail "verify_boot_adb_failed"
      (quoting "adb device {} never appeared in device list" (connect_serial_for env m ∷ [])))
boot_serial env id m deadline again (err e) = boot_not_ready env deadline 500 again (
    error_detail "verify_boot_adb_failed"
      (context (formatted "adb devices never succeeded for instance {}" (id ∷ [])) e))
boot_serial env id m deadline again (ok (some serial)) = do
  value ← attempt (adb_shell_getprop env serial (lit "VIRTUAL_DEVICE_BOOT_COMPLETED"))
  boot_property env id deadline again value
boot_serial env id m deadline again stuck = hang

boot_connected :
    Env
    → InstanceId
    → InstanceMetadata
    → ℕ
    → Detailed BootVerificationResult
    → Result Message (Unit {0})
    → Detailed BootVerificationResult
unfolding boot_serial
boot_connected env id m deadline again (err e) = boot_not_ready env deadline 500 again (
    error_detail "verify_boot_adb_failed"
      (context (formatted "adb connect never succeeded for instance {}" (id ∷ [])) e))
boot_connected env id m deadline again (ok _) = do
  found ← attempt (resolve_active_adb_serial env (serial_for env m) (connect_serial_for env m))
  boot_serial env id m deadline again found
boot_connected env id m deadline again stuck = hang

-- The loop of `verify_boot_completed`.
unfoldable pub boot_loop :
    ℕ → Env → InstanceId → InstanceMetadata → ℕ → Detailed BootVerificationResult
unfolding boot_connected
boot_loop zero env id m deadline = hang
boot_loop (suc fuel) env id m deadline = do
  connected ← attempt (adb_connect env (connect_serial_for env m))
  boot_connected env id m deadline (boot_loop fuel env id m deadline) connected

abbrev pub positive_or : Option ℕ → ℕ → ℕ
positive_or none d = d
positive_or (some n) d = if ltb 0 n then n else d

-- A round of the loop sleeps for half a second at least.
unfoldable pub verify_boot_completed : Env → InstanceId → Option ℕ → Detailed BootVerificationResult
verify_boot_completed env id timeout_secs = do
  m ← map_err (error_detail "verify_boot_metadata") (metadata env id)
  now ← instant_now env
  let timeout = 1000 * positive_or timeout_secs 120
  boot_loop (suc (suc (timeout / 500))) env id m (now + timeout)
