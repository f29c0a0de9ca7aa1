-- ===== src/Manager/Destroy.antt =====
-- cuttlefish/cfctl/src/daemon/manager.rs: `stop_instance`, `destroy_instance` and its two halves,
-- and `deploy`.
pub mod Stopped
pub mod Removed
pub mod Images
pub mod Deployed
pub mod Destroyed
pub mod Untouched
pub mod Blocked
pub mod Finishes
use fundroid.Prelude.{ℕ, Bool, true, false, Option, none, some, [], ◌∷◌, ◌==◌, if◌then◌else◌}
use fundroid.Exec.{
  Exec, Result, ok, err, stuck, hang, pure, fail, gets, map_err, attempt, ◌>>=◌, ◌>>◌,
}
use fundroid.Text.{Text}
use fundroid.Protocol.{
  Message, formatted, quoting, context, InstanceId, InstanceState, stopped, failed, destroyed,
  InstanceSummary, InstanceActionResponse, DestroyOptions, DeployRequest, ErrorDetail,
}
use fundroid.Files.{
  inside, InstanceMetadata, copy_of, Slot, root, boot_artifact, init_boot_artifact, metadata_file,
  env_file,
}
use fundroid.Host.{ExitStatusInfo, Env, World, finish_destroying, Action}
use fundroid.Host.Fs
use fundroid.Host.Os.{epoch_secs, instant_now, spawn}
use fundroid.Guest.{success}
use fundroid.Manager.Metadata.{
  summary, error_detail, cache_insert, cache_remove, by_new_manager, fallback_metadata, metadata,
  write_metadata, write_env_file, mark_metadata_state,
}
use fundroid.Manager.Cleanup.{
  CleanupOutcome, cleanup_summary, kill_guest_processes, cleanup_host_state,
}
use fundroid.Manager.Terminate.{terminate_guest}

-- A guest that could not be waited for counts as stopped.
unfoldable pub stop_state : Option ExitStatusInfo → InstanceState
stop_state none = stopped
stop_state (some exit) = if success exit then stopped else failed

unfoldable pub action_response : InstanceSummary → CleanupOutcome → InstanceActionResponse
action_response s outcome = record {
  summary = s;
  journal_tail = none;
  verification = none;
  cleanup = some (cleanup_summary outcome);
  run_log_tail = none;
  console_snapshot_path = none;
}

-- Processes that survive the cleanup make the instance failed.
stopped_or_failed : Env → InstanceId → InstanceMetadata → CleanupOutcome → Action InstanceMetadata
stopped_or_failed env id m outcome = if outcome.guest_processes_killed then pure m else do
  now ← epoch_secs env
  let survived = record m { state = failed; updated_at = now }
  write_metadata env id survived
  cache_insert id survived
  pure survived

unfoldable pub stop_instance : Env → InstanceId → Action InstanceActionResponse
unfolding stopped_or_failed
stop_instance env id = do
  old ← metadata env id
  exit ← terminate_guest env id 10000
  now ← epoch_secs env
  let m = record old { state = stop_state exit; updated_at = now }
  write_metadata env id m
  cache_insert id m
  outcome ← cleanup_host_state env id
  final ← stopped_or_failed env id m outcome
  pure (action_response (summary env final) outcome)

old_or_fallback : Env → InstanceId → Result Message InstanceMetadata → InstanceMetadata
old_or_fallback env id (ok m) = m
old_or_fallback env id _ = fallback_metadata env id destroyed 0

destroyed_at : ℕ → InstanceMetadata → InstanceMetadata
destroyed_at now m = record m {
  state = destroyed;
  updated_at = now;
  created_at = if m.created_at == 0 then now else m.created_at;
}

unfoldable pub prepare_destroy : Env → InstanceId → Action InstanceSummary
unfolding old_or_fallback destroyed_at
prepare_destroy env id = do
  old ← attempt (metadata env id)
  now ← epoch_secs env
  let m = destroyed_at now (old_or_fallback env id old)
  present ← Fs.exists env metadata_file id
  (if present then write_metadata env id m else pure tt)
  cache_remove id
  terminate_guest env id 5000
  kill_guest_processes env id
  pure (record { id = id; adb = none; state = destroyed })

remove_present : Env → InstanceId → Bool → Action (Unit {0}) → Action (Unit {0})
remove_present env id present m = if present then m else pure tt

unfoldable pub remove_instance_artifacts : Env → InstanceId → Action (Unit {0})
unfolding remove_present
remove_instance_artifacts env id = do
  has_env ← Fs.exists env env_file id
  remove_present env id has_env (
      map_err (context (formatted "removing env file of {}" (id ∷ [])))
        (Fs.remove_file env env_file id))
  has_root ← Fs.exists env root id
  remove_present env id has_root (
      map_err (context (formatted "removing instance dir of {}" (id ∷ []))) (Fs.remove_root env id))

forget : InstanceId → Result Message (Unit {0}) → Action (Unit {0})
forget id (ok _) = cache_remove id
forget id (err e) = pure tt
forget id stuck = hang

-- What is kept of an instance whose processes are gone, or still there.
settle : Env → InstanceId → Bool → Action (Unit {0})
unfolding forget
settle env id true = do removed ← attempt (remove_instance_artifacts env id); forget id removed
settle env id false = do mark_metadata_state env id failed; pure tt

unfoldable pub finish_destroy : Env → InstanceId → Action CleanupOutcome
unfolding settle
finish_destroy env id = do
  outcome ← cleanup_host_state env id
  settle env id outcome.guest_processes_killed
  pure outcome

abbrev pub Detailed : Type 0 → Type 0
Detailed = Exec World ErrorDetail

destroy_answer : InstanceId → InstanceSummary → CleanupOutcome → Detailed InstanceActionResponse
destroy_answer id s outcome =
    if outcome.guest_processes_killed
    then pure (action_response s outcome)
    else fail (
        error_detail "destroy_incomplete"
          (formatted "guest processes still running for {}" (id ∷ [])))

-- The thread's result came in time.
destroy_received : Env → InstanceId → InstanceSummary → Detailed InstanceActionResponse
unfolding destroy_answer
destroy_received env id s = do
  outcome ←
      map_err
        (λ e.
          error_detail "destroy_cleanup_failed"
            (context (formatted "cleanup for {} failed" (id ∷ [])) e))
        (by_new_manager (finish_destroy env id))
  destroy_answer id s outcome

-- `recv_timeout`: the host says whether the result comes in time. If not, the thread goes on.
destroy_wait : Env → InstanceId → InstanceSummary → Bool → Detailed InstanceActionResponse
unfolding destroy_received
destroy_wait env id s true = destroy_received env id s
destroy_wait env id s false = do
  spawn (finish_destroying id)
  fail (error_detail "destroy_timeout" (formatted "destroy {} exceeded timeout" (id ∷ [])))

destroy_until : Env → InstanceId → InstanceSummary → Option ℕ → Detailed InstanceActionResponse
unfolding destroy_wait
destroy_until env id s none = destroy_received env id s
destroy_until env id s (some timeout) = do
  instant_now env
  instant_now env
  in_time ← gets (λ w. env.received w.calls)
  destroy_wait env id s in_time

unfoldable pub destroy_instance :
    Env → InstanceId → DestroyOptions → Detailed InstanceActionResponse
unfolding destroy_until
destroy_instance env id options = do
  s ← map_err (error_detail "destroy_prepare_failed") (prepare_destroy env id)
  destroy_until env id s options.timeout_secs

-- `fs::copy` of an image into the instance's artifacts.
pub copy_image :
    Env
    → InstanceId
    → Slot
    → Option Text
    → InstanceMetadata
    → (InstanceMetadata → InstanceMetadata)
    → Action InstanceMetadata
copy_image env id s none m moved = pure m
copy_image env id s (some source) m moved = do
  map_err (context (quoting "copy image {}" (source ∷ []))) (Fs.write env s id (copy_of source))
  pure (moved m)

unfoldable pub deploy : Env → DeployRequest → Action (Unit {0})
unfolding copy_image
deploy env req = do
  old ← metadata env req.id
  booted ←
      copy_image env req.id boot_artifact req.boot_image old
        (λ m. record m { boot_image = inside boot_artifact req.id })
  imaged ←
      copy_image env req.id init_boot_artifact req.init_boot_image booted
        (λ m. record m { init_boot_image = inside init_boot_artifact req.id })
  now ← epoch_secs env
  let m = record imaged { updated_at = now }
  write_metadata env req.id m
  write_env_file env req.id m
  cache_insert req.id m
