-- ===== src/Daemon/Isolation.antt =====
-- cuttlefish/cfctl/src/daemon/mod.rs: what a request changes, and the lock of its instance.
use fundroid.Prelude.{ℕ, ◌≡◌, ◌≢◌, some, arith}
use fundroid.Exec.{Result, ok, err, stuck}
use fundroid.Exec.Keeps.{Keeps, keeps_rules}
use fundroid.Protocol.{
  Message, Request, create_instance, start_instance, create_start_instance, stop_instance,
  hold_instance, destroy_instance, deploy, wait_for_adb, logs, status, describe, list_instances,
  prune_expired, prune_all,
}
use fundroid.Protocol.Reply.{Response}
use fundroid.Host.{Env, World}
use fundroid.Host.Untouched.{Untouched, Untouched-refl}
use fundroid.Manager.Metadata.Untouched.{by_new_manager-Untouched}
use fundroid.Manager.Handle.{handle}
use fundroid.Manager.Handle.Untouched.{
  start-Untouched, stop-Untouched, hold-Untouched, destroy-Untouched, wait_request-Untouched,
  logs_request-Untouched, status_request-Untouched, describe_request-Untouched,
  deploy_request-Untouched,
}
use fundroid.Daemon.{maybe_instance_id, dispatch, answered, respond_to}

answered-Untouched :
    (i : ℕ) (w : World) (r : Result Message Response) → Keeps (Untouched i w) (answered r)
unfolding answered
answered-Untouched i w (ok a) = search keeps_rules
answered-Untouched i w (err e) = search keeps_rules
answered-Untouched i w stuck = search keeps_rules

handle_locked-Untouched :
    (env : Env) (request : Request) (i j : ℕ)
    → maybe_instance_id request ≡ some j
    → i ≢ j
    → (w : World) → Keeps (Untouched i w) (handle env request)
unfolding maybe_instance_id
handle_locked-Untouched env (start_instance id options) i j h other w =
    start-Untouched env i id (ground arith) w options
handle_locked-Untouched env (stop_instance id) i j h other w =
    stop-Untouched env i id (ground arith) w
handle_locked-Untouched env (hold_instance id) i j h other w =
    hold-Untouched env i id (ground arith) w
handle_locked-Untouched env (destroy_instance id options) i j h other w =
    destroy-Untouched env i id (ground arith) w options
handle_locked-Untouched env (deploy req) i j h other w =
    deploy_request-Untouched env i w req (ground arith)
handle_locked-Untouched env (wait_for_adb id t) i j h other w =
    wait_request-Untouched env i id (ground arith) w t
handle_locked-Untouched env (logs id n options) i j h other w =
    logs_request-Untouched env i id w n options
handle_locked-Untouched env (status id) i j h other w = status_request-Untouched env i id w
handle_locked-Untouched env (describe id n) i j h other w = describe_request-Untouched env i id w n
handle_locked-Untouched env (create_instance purpose) i j h other w = ground arith
handle_locked-Untouched env (create_start_instance purpose options) i j h other w = ground arith
handle_locked-Untouched env list_instances i j h other w = ground arith
handle_locked-Untouched env (prune_expired max_age_secs) i j h other w = ground arith
handle_locked-Untouched env prune_all i j h other w = ground arith

dispatch-Untouched :
    (env : Env) (request : Request) (i j : ℕ)
    → maybe_instance_id request ≡ some j
    → i ≢ j
    → (w : World) → Keeps (Untouched i w) (dispatch env request)
unfolding dispatch
dispatch-Untouched env request i j locked other w =
    by_new_manager-Untouched i w (handle env request)
      (handle_locked-Untouched env request i j locked other)

-- While a request runs, whose dispatch locks the instance `j`, the files of every other instance,
-- its cached metadata and its entry in the registry of handles stay as they are, whatever the host
-- answers. This is about the daemon's own data: the directories under /tmp are not compared, and
-- which processes a `pkill` ends is up to the host: its patterns can match those of another instance.
pub respond_to-Untouched :
    (env : Env) (request : Request) (i j : ℕ) (w : World)
    → maybe_instance_id request ≡ some j
    → i ≢ j
    → Untouched i w (respond_to env request w).1
unfolding respond_to
respond_to-Untouched env request i j w locked other = kept.run w (Untouched-refl i w)
  where
    kept : Keeps (Untouched i w) (respond_to env request)
    kept = search (keeps_rules, dispatch-Untouched, answered-Untouched) depth 9
