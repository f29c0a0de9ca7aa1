-- ===== src/Manager/Logs.antt =====
-- cuttlefish/cfctl/src/daemon/manager.rs: the paths that are shown or handed to programs, and the
-- operations that read an instance and its logs: `logs`, `status`, `describe`.
pub mod Untouched
pub mod Finishes
use fundroid.Prelude.{
  ℕ, ◌++◌, Bool, false, not, Option, none, some, [], ◌∷◌, ◌==◌, if◌then◌else◌, unwrap_or,
}
use fundroid.Exec.{Exec, Result, ok, err, stuck, hang, pure, fail, map_err, attempt, ◌>>=◌, ◌>>◌}
use fundroid.Text.{Text, contains}
use fundroid.Text.Numbers.{show}
use fundroid.Protocol.{
  Message, plain, formatted, quoting, context, InstanceId, InstanceActionResponse, LogsOptions,
  LogsResponse, ErrorDetail,
}
use fundroid.Files.{
  Slot, root, artifacts, boot_artifact, init_boot_artifact, metadata_file, metadata_tmp, run_log,
  console_snapshot, env_file, env_tmp, instance_dir, assembly_dir, id_alloc, PathBuf, external,
  inside,
}
use fundroid.Host.{Env, World, Action, tick, attempt_call}
use fundroid.Host.Fs
use fundroid.Manager.Metadata.{error_detail, metadata, summary}
use fundroid.Manager.Alloc.{plain_response}
use fundroid.Manager.Cleanup.{lit}
use fundroid.Manager.Tail.{tail_of, max_tail_bytes}

abbrev slash : Text → Text → Text
slash a b = a ++ (b'/' ∷ b)

-- `InstancePaths::new`, `env_file`, `host_instance_dir`, `host_assembly_dir` and the paths that are
-- joined onto them.
unfoldable pub root_path : Env → InstanceId → Text
root_path env id = slash (slash env.state_dir (lit "instances")) (show id)

unfoldable pub slot_path : Env → Slot → InstanceId → Text
slot_path env root id = root_path env id
slot_path env artifacts id = slash (root_path env id) (lit "artifacts")
slot_path env boot_artifact id = slash (slash (root_path env id) (lit "artifacts")) (lit "boot.img")
slot_path env init_boot_artifact id =
    slash (slash (root_path env id) (lit "artifacts")) (lit "init_boot.img")
slot_path env metadata_file id = slash (root_path env id) (lit "metadata.json")
slot_path env metadata_tmp id = slash (root_path env id) (lit "metadata.json.tmp")
slot_path env run_log id = slash (root_path env id) (lit "cfctl-run.log")
slot_path env console_snapshot id = slash (root_path env id) (lit "console_snapshot.log")
slot_path env env_file id = slash env.etc_instances_dir (show id ++ lit ".env")
slot_path env env_tmp id = slash env.etc_instances_dir (show id ++ lit ".tmp")
slot_path env instance_dir id = slash env.cuttlefish_instances_dir (show id)
slot_path env assembly_dir id = slash env.cuttlefish_assembly_dir (show id)
slot_path env id_alloc id = slash (slash env.state_dir (lit "control")) (lit "next_id")

-- `path.display()`
unfoldable pub display : Env → PathBuf → Text
unfolding slot_path
display env (external t) = t
display env (inside s id) = slot_path env s id

unfoldable pub console_log_path : Env → InstanceId → PathBuf
unfolding slot_path
console_log_path env id = external (
    slash (slash (slash (slot_path env instance_dir id) (lit "instances")) (lit "cvd-" ++ show id))
      (lit "console_log"))

tail_or_invalid : Option Text → Action Text
tail_or_invalid none = fail (plain "stream did not contain valid UTF-8")
tail_or_invalid (some t) = pure t

-- Opening, the stat, the seek and the read of the file as it is at that call.
unfoldable pub tail_file : Env → PathBuf → ℕ → Action Text
unfolding tail_or_invalid
tail_file env path n = do
  map_err (context (quoting "opening log file {}" (display env path ∷ []))) (attempt_call env)
  map_err (context (quoting "stat log file {}" (display env path ∷ []))) (attempt_call env)
  map_err (context (quoting "seek tail for {}" (display env path ∷ []))) (attempt_call env)
  λ w.
      (do attempt_call env; tail_or_invalid (tail_of max_tail_bytes n (env.log_text w.calls path)))
        w

-- `path.exists()` of a file that is not the daemon's own.
unfoldable pub path_present : {E : Type 0} → Env → PathBuf → Exec World E Bool
path_present env (external t) w = (ok (env.path_exists w.calls (external t)), tick env w)
path_present env (inside s i) w = Fs.exists env s i w

found_marker : Result Message Text → Bool
found_marker (ok content) = contains content (lit "VIRTUAL_DEVICE_BOOT_COMPLETED")
found_marker _ = false

log_has_boot_marker : Env → PathBuf → {E : Type 0} → Exec World E Bool
unfolding found_marker
log_has_boot_marker env path = do
  present ← path_present env path
  if not present
      then pure false
      else do content ← attempt (tail_file env path env.journal_lines); pure (found_marker content)

unfoldable pub console_log_has_boot_marker : {E : Type 0} → Env → InstanceId → Exec World E Bool
unfolding log_has_boot_marker
console_log_has_boot_marker env id = log_has_boot_marker env (console_log_path env id)

unfoldable pub run_log_has_boot_marker : {E : Type 0} → Env → InstanceId → Exec World E Bool
unfolding log_has_boot_marker
run_log_has_boot_marker env id = log_has_boot_marker env (inside run_log id)

unfoldable pub guest_log_tail : Env → InstanceId → ℕ → Action (Option Text)
guest_log_tail env id n = do
  present ← Fs.exists env run_log id
  if not present
      then pure none
      else do content ← tail_file env (inside run_log id) n; pure (some content)

abbrev is_zero_timeout : Option ℕ → Bool
is_zero_timeout none = false
is_zero_timeout (some n) = n == 0

-- The error of a tail that failed tells whether the log is there.
tail_or_fail :
    Env → InstanceId → Result Message (Option Text) → Exec World ErrorDetail (Option Text)
tail_or_fail env id (ok t) = pure t
tail_or_fail env id stuck = hang
tail_or_fail env id (err e) = do
  present ← Fs.exists env run_log id
  if present
      then fail (
          error_detail "logs_fetch_failed"
            (context (formatted "Failed to read logs for instance {}: {}" (id ∷ [])) e))
      else fail (
          error_detail "logs_not_available" (
            formatted
              "Run log does not exist yet for instance {}. The instance may not have been started."
              (id ∷ [])))

found_or_fail : {A : Type 0} → InstanceId → Result Message A → Exec World ErrorDetail (Unit {0})
found_or_fail id (ok a) = pure tt
found_or_fail id (err e) = fail (
    error_detail "instance_not_found"
      (formatted "Instance {} does not exist or metadata cannot be read" (id ∷ [])))
found_or_fail id stuck = hang

logs_response : InstanceId → Option Text → LogsResponse
logs_response id journal = record {
  journal = journal;
  console_log_path = some (
      lit "/var/lib/cuttlefish/instances/"
      ++ (show id ++ (lit "/instances/cvd-" ++ (show id ++ lit "/console_log"))));
}

unfoldable pub logs :
    Env → InstanceId → Option ℕ → LogsOptions → Exec World ErrorDetail LogsResponse
unfolding tail_or_fail found_or_fail logs_response
logs env id n options =
    if is_zero_timeout options.timeout_secs
    then fail (error_detail "logs_timeout" (plain "timeout expired before logs retrieved"))
    else do
      found ← attempt (metadata env id)
      found_or_fail id found
      tail ← attempt (guest_log_tail env id (unwrap_or n env.journal_lines))
      journal ← tail_or_fail env id tail
      pure (logs_response id journal)

unfoldable pub status : Env → InstanceId → Action InstanceActionResponse
status env id = do m ← metadata env id; pure (plain_response env m)

unfoldable pub describe : Env → InstanceId → Option ℕ → Action InstanceActionResponse
describe env id run_log_lines = do
  m ← metadata env id
  tail ← guest_log_tail env id (unwrap_or run_log_lines 50)
  present ← Fs.exists env console_snapshot id
  pure (record {
    summary = summary env m;
    journal_tail = none;
    verification = none;
    cleanup = none;
    run_log_tail = tail;
    console_snapshot_path = if present then some (slot_path env console_snapshot id) else none;
  })
