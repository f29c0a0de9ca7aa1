-- ===== src/Daemon.antt =====
-- cuttlefish/cfctl/src/daemon/mod.rs: how a request is dispatched to a manager of its own, and which
-- of the daemon's locks it holds meanwhile.
pub mod Isolation
pub mod Answers
pub mod Blocked
pub mod Locks
pub mod Stream
pub mod Startup
use fundroid.Prelude.{Bool, true, false, Option, none, some}
use fundroid.Exec.{Result, ok, err, stuck, hang, pure, attempt, ◌>>=◌}
use fundroid.Protocol.{
  Message, Request, create_instance, start_instance, create_start_instance, stop_instance,
  hold_instance, destroy_instance, deploy, wait_for_adb, logs, status, describe, InstanceId,
}
use fundroid.Protocol.Reply
use fundroid.Protocol.Reply.{Response}
use fundroid.Host.{Env, Action}
use fundroid.Manager.Metadata.{by_new_manager}
use fundroid.Manager.Handle.{handle}

-- The instance whose lock the request holds.
unfoldable pub maybe_instance_id : Request → Option InstanceId
maybe_instance_id (start_instance id options) = some id
maybe_instance_id (stop_instance id) = some id
maybe_instance_id (hold_instance id) = some id
maybe_instance_id (destroy_instance id options) = some id
maybe_instance_id (wait_for_adb id timeout_secs) = some id
maybe_instance_id (logs id n options) = some id
maybe_instance_id (status id) = some id
maybe_instance_id (describe id n) = some id
maybe_instance_id (deploy req) = some req.id
maybe_instance_id _ = none

-- Whether the request holds the lock of the allocation of ids.
unfoldable pub holds_id_lock : Request → Bool
holds_id_lock (create_instance purpose) = true
holds_id_lock (create_start_instance purpose options) = true
holds_id_lock _ = false

-- Every request has a manager of its own, with an empty cache.
unfoldable pub dispatch : Env → Request → Action Response
dispatch env request = by_new_manager (handle env request)

-- An error becomes a response.
answered : Result Message Response → Action Response
answered (ok response) = pure response
answered (err e) = pure (Reply.error e)
answered stuck = hang

-- `handle_stream`, from the request that was decoded to the response that is encoded.
unfoldable pub respond_to : Env → Request → Action Response
unfolding answered
respond_to env request = do result ← attempt (dispatch env request); answered result
