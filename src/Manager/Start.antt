-- ===== src/Manager/Start.antt =====
-- cuttlefish/cfctl/src/daemon/manager.rs: `start_instance` and `create_and_start_instance`.
pub mod Untouched
pub mod Finishes
pub mod Launched
use fundroid.Prelude.{
  ℕ, suc, ◌+◌, ◌-◌, ◌*◌, ◌/◌, Bool, true, false, not, ◌&&◌, Option, none, some, [], ◌∷◌,
  if◌then◌else◌, unwrap_or,
}
use fundroid.Exec.{
  Exec, Result, ok, err, stuck, hang, pure, fail, gets, modify, map_err, attempt, ◌>>=◌, ◌>>◌,
}
use fundroid.Text.{Text}
use fundroid.Protocol.{
  Message, plain, formatted, context, InstanceId, starting, running, failed, InstanceActionResponse,
  StartOptions, ErrorDetail,
}
use fundroid.Files.{InstanceMetadata}
use fundroid.Host.{Env, World}
use fundroid.Host.Os.{epoch_secs, instant_now}
use fundroid.Guest.{new_handle, set_handle, insert, contains}
use fundroid.Manager.Metadata.{error_detail, cache_insert, metadata, write_metadata, write_env_file}
use fundroid.Manager.Alloc.{create_instance, plain_response}
use fundroid.Manager.Cleanup.{preflight_cleanup}
use fundroid.Manager.Launch.{
  prepare_host_directories, ensure_qemu_datadir, prepare_run_log, spawn_guest_process,
}
use fundroid.Manager.Terminate.{terminate_guest, spawn_exit_watcher}
use fundroid.Manager.Adb.{wait_for_adb, verify_boot_completed}

abbrev pub Detailed : Type 0 → Type 0
Detailed = Exec World ErrorDetail

-- `secs_remaining` of a deadline in milliseconds: whole seconds, and 0 once it has passed.
unfoldable pub secs_remaining : Env → Option ℕ → Detailed (Option ℕ)
secs_remaining env none = pure none
secs_remaining env (some deadline) = do now ← instant_now env; pure (some ((deadline - now) / 1000))

-- The handle of a new child is put into the registry.
unfoldable pub register : InstanceId → ℕ → World → World
register id pid w =
    insert id w.next_handle
      (record (set_handle w.next_handle (new_handle pid) w) { next_handle = suc w.next_handle })

unfoldable pub spawn_failed : Env → InstanceId → InstanceMetadata → Message → Detailed ℕ
spawn_failed env id m e = do
  now ← map_err (error_detail "start_instance_failed_timestamp") (epoch_secs env)
  let ended = record m { state = failed; updated_at = now }
  attempt {F = ErrorDetail} (write_metadata env id ended)
  cache_insert id ended
  fail (error_detail "start_instance_spawn_failed" (context (plain "launching cuttlefish guest") e))

-- The handle of the child that was spawned.
spawned : Env → InstanceId → InstanceMetadata → Result Message ℕ → Detailed ℕ
spawned env id m (err e) = spawn_failed env id m e
spawned env id m stuck = hang
spawned env id m (ok pid) = do h ← gets (λ w. w.next_handle); modify (register id pid); pure h

-- `start_instance` up to the registered handle.
unfoldable pub launch : Env → InstanceId → StartOptions → Detailed ℕ
unfolding spawned
launch env id options = do
  old ← map_err (error_detail "start_instance_metadata") (metadata env id)
  now ← map_err (error_detail "start_instance_timestamp") (epoch_secs env)
  let m = record old { state = starting; updated_at = now }
  map_err (error_detail "start_instance_write_metadata") (write_metadata env id m)
  map_err (error_detail "start_instance_write_env") (write_env_file env id m)
  cache_insert id m
  map_err (error_detail "start_instance_preflight") (preflight_cleanup env id)
  map_err (error_detail "start_instance_prepare_dirs") (prepare_host_directories env id)
  map_err (error_detail "start_instance_ensure_qemu") (ensure_qemu_datadir env)
  map_err (error_detail "start_instance_prepare_log") (prepare_run_log env id)
  child ← attempt (spawn_guest_process env id m (not options.disable_webrtc) options.track)
  spawned env id m child

-- `skip_adb_wait`: the instance is taken to run.
unfoldable pub start_without_adb : Env → InstanceId → ℕ → Detailed InstanceActionResponse
start_without_adb env id h = do
  old ← map_err (error_detail "start_instance_metadata_after_skip") (metadata env id)
  now ← map_err (error_detail "start_instance_timestamp_after_skip") (epoch_secs env)
  let m = record old { state = running; updated_at = now }
  map_err (error_detail "start_instance_write_metadata_after_skip") (write_metadata env id m)
  cache_insert id m
  modify (spawn_exit_watcher id h)
  pure (plain_response env m)

-- A guest that adb does not reach is terminated.
adb_or_terminate :
    Env → InstanceId → Result ErrorDetail InstanceActionResponse → Detailed InstanceActionResponse
adb_or_terminate env id (ok response) = pure response
adb_or_terminate env id stuck = hang
adb_or_terminate env id (err detail) = do
  attempt {F = ErrorDetail} (terminate_guest env id 5000)
  fail detail

-- Boot verification, where it is asked for. Its error is returned as it is.
verify_if_asked :
    Env → InstanceId → Option ℕ → Bool → InstanceActionResponse → Detailed InstanceActionResponse
verify_if_asked env id deadline false response = pure response
verify_if_asked env id deadline true response = do
  left ← secs_remaining env deadline
  verification ← verify_boot_completed env id left
  pure (record response { verification = some verification })

unfoldable pub start_with_adb :
    Env → InstanceId → StartOptions → ℕ → Detailed InstanceActionResponse
unfolding adb_or_terminate verify_if_asked
start_with_adb env id options h = do
  now ← instant_now env
  let deadline = some (now + 1000 * unwrap_or options.timeout_secs env.start_timeout)
  left ← secs_remaining env deadline
  reached ← attempt (wait_for_adb env id left)
  response ← adb_or_terminate env id reached
  done ← verify_if_asked env id deadline options.verify_boot response
  modify (spawn_exit_watcher id h)
  pure done

unfoldable pub start_instance : Env → InstanceId → StartOptions → Detailed InstanceActionResponse
start_instance env id options =
    if options.skip_adb_wait && options.verify_boot
    then fail (
        error_detail "start_instance_invalid_options"
          (plain "cannot use both skip_adb_wait and verify_boot (boot verification requires ADB)"))
    else do
      active ← gets (contains id)
      if active
          then fail (
              error_detail "start_instance_already_running"
                (formatted "instance {} already running" (id ∷ [])))
          else (do
            h ← launch env id options
            if options.skip_adb_wait
                then start_without_adb env id h
                else start_with_adb env id options h)

unfoldable pub create_and_start_instance :
    Env → Option Text → StartOptions → Detailed InstanceActionResponse
create_and_start_instance env purpose options = do
  create ← map_err (error_detail "create_start_create_failed") (create_instance env purpose)
  start_instance env create.summary.id options
