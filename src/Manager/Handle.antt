-- ===== src/Manager/Handle.antt =====
-- cuttlefish/cfctl/src/daemon/manager.rs: `InstanceManager::handle`, the operation of each request
-- and the response that its result makes.
pub mod Untouched
pub mod Finishes
pub mod Returns
use fundroid.Prelude.{ℕ, true, none, some, List, [], ◌∷◌, ltb, if◌then◌else◌}
use fundroid.Exec.{Exec, Result, ok, err, stuck, hang, pure, attempt, ◌>>=◌}
use fundroid.Protocol.{
  Message, plain, formatted, Request, create_instance, start_instance, create_start_instance,
  stop_instance, hold_instance, destroy_instance, deploy, wait_for_adb, logs, status, describe,
  list_instances, prune_expired, prune_all, CreateInstanceResponse, InstanceActionResponse,
  LogsResponse, InstanceSummary, ErrorDetail,
}
use fundroid.Protocol.Reply
use fundroid.Protocol.Reply.{Response}
use fundroid.Host.{Env, World, Action}
use fundroid.Manager.Alloc
use fundroid.Manager.Start
use fundroid.Manager.Destroy
use fundroid.Manager.Adb
use fundroid.Manager.Logs
use fundroid.Manager.Prune

abbrev pub created_response : CreateInstanceResponse → Response
created_response r = record {
  ok = true;
  message = none;
  create = some r;
  action = none;
  logs = none;
  instances = none;
  error = none;
}

abbrev pub acted_response : InstanceActionResponse → Response
acted_response r = record {
  ok = true;
  message = none;
  create = none;
  action = some r;
  logs = none;
  instances = none;
  error = none;
}

abbrev pub logs_response : LogsResponse → Response
logs_response r = record {
  ok = true;
  message = none;
  create = none;
  action = none;
  logs = some r;
  instances = none;
  error = none;
}

abbrev pub list_response : List InstanceSummary → Response
list_response r = record {
  ok = true;
  message = none;
  create = none;
  action = none;
  logs = none;
  instances = some r;
  error = none;
}

-- An operation that fails with a detail makes a response with that detail.
respond : {A : Type 0} → (A → Response) → Result ErrorDetail A → Action Response
respond f (ok a) = pure (f a)
respond f (err detail) = pure (Reply.error_with_detail detail)
respond f stuck = hang

abbrev detailed : {A : Type 0} → (A → Response) → Exec World ErrorDetail A → Action Response
detailed f m = do r ← attempt m; respond f r

abbrev plainly : {A : Type 0} → (A → Response) → Action A → Action Response
plainly f m = do r ← m; pure (f r)

abbrev expired_message : ℕ × ℕ → Message
expired_message (pruned, retained) =
    if ltb 0 retained
    then formatted "pruned {} expired instances; {} still running" (pruned ∷ retained ∷ [])
    else formatted "pruned {} expired instances" (pruned ∷ [])

abbrev pruned_message : ℕ × ℕ → Message
pruned_message (pruned, retained) =
    if ltb 0 retained
    then formatted "pruned {} instances; {} still running" (pruned ∷ retained ∷ [])
    else formatted "pruned {} instances" (pruned ∷ [])

unfoldable pub handle : Env → Request → Action Response
unfolding respond
handle env (create_instance purpose) = plainly created_response (Alloc.create_instance env purpose)
handle env (start_instance id options) =
    detailed acted_response (Start.start_instance env id options)
handle env (create_start_instance purpose options) =
    detailed acted_response (Start.create_and_start_instance env purpose options)
handle env (stop_instance id) = plainly acted_response (Destroy.stop_instance env id)
handle env (hold_instance id) = plainly acted_response (Alloc.hold_instance env id)
handle env (destroy_instance id options) =
    detailed acted_response (Destroy.destroy_instance env id options)
handle env (deploy req) =
    plainly (λ _. Reply.with_message Reply.ok (plain "deploy updated")) (Destroy.deploy env req)
handle env (wait_for_adb id timeout_secs) =
    detailed acted_response (Adb.wait_for_adb env id timeout_secs)
handle env (logs id n options) = detailed logs_response (Logs.logs env id n options)
handle env (status id) = plainly acted_response (Logs.status env id)
handle env (describe id run_log_lines) = plainly acted_response (Logs.describe env id run_log_lines)
handle env list_instances = plainly list_response (Prune.list_instances env)
handle env (prune_expired max_age_secs) =
    plainly (λ counts. Reply.with_message Reply.ok (expired_message counts))
      (Prune.prune_expired_instances env max_age_secs)
handle env prune_all =
    plainly (λ counts. Reply.with_message Reply.ok (pruned_message counts))
      (Prune.prune_all_instances env)
