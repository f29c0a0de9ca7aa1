-- ===== src/Manager/Handle/Finishes.antt =====
-- cuttlefish/cfctl/src/daemon/manager.rs: the end of `InstanceManager::handle`.
use fundroid.Prelude.{ℕ, ◌≢◌, refl}
use fundroid.Exec.{Exec, Result, ok, err, stuck}
use fundroid.Exec.Finishes.{
  Finishes, Finishes-bind, Finishes-pure, Ends, Ends-attempt, Finishes-Ends,
}
use fundroid.Protocol.{
  Request, create_instance, start_instance, create_start_instance, stop_instance, hold_instance,
  destroy_instance, deploy, wait_for_adb, logs, status, describe, list_instances, prune_expired,
  prune_all, ErrorDetail,
}
use fundroid.Protocol.Reply.{Response}
use fundroid.Host.{Env, World, Action}
use fundroid.Host.Unhindered.{Unhindered}
use fundroid.Manager.Alloc.Finishes.{create_instance-Finishes, hold_instance-Finishes}
use fundroid.Manager.Start.Finishes.{start_instance-Ends, create_and_start_instance-Ends}
use fundroid.Manager.Destroy.Finishes.{
  stop_instance-Finishes, destroy_instance-Finishes, deploy-Finishes,
}
use fundroid.Manager.Adb.Finishes.{wait_for_adb-Finishes}
use fundroid.Manager.Logs.Finishes.{logs-Finishes, status-Finishes, describe-Finishes}
use fundroid.Manager.Prune.Finishes.{
  list_instances-Finishes, prune_all_instances-Finishes, prune_expired_instances-Finishes,
}
use fundroid.Manager.Handle.{respond, detailed, plainly, handle}

module _ {A : Type 0} (since : ℕ) (f : A → Response) where
  respond-ends : (r : Result ErrorDetail A) (v : World) → r ≢ stuck → (respond f r v).0 ≢ stuck
  unfolding respond
  respond-ends (ok a) v ends h = cc
  respond-ends (err e) v ends h = cc
  respond-ends stuck v ends h = ends refl

  detailed-Ends :
      (m : Exec World ErrorDetail A)
      → Ends (Unhindered since) m
      → Ends (Unhindered since) (detailed f m)
  detailed-Ends m k = Ends-attempt _ _ k respond-ends

  plainly-Ends :
      (m : Action A) → Finishes (Unhindered since) m → Ends (Unhindered since) (plainly f m)
  plainly-Ends m k = Finishes-Ends _ (Finishes-bind _ _ k λ r. Finishes-pure _)

module _ (env : Env) (since : ℕ) where
  pub handle-Ends : (request : Request) → Ends (Unhindered since) (handle env request)
  unfolding handle
  handle-Ends (create_instance purpose) =
      plainly-Ends since _ _ (create_instance-Finishes env since purpose)
  handle-Ends (start_instance id options) =
      detailed-Ends since _ _ (start_instance-Ends env since id options)
  handle-Ends (create_start_instance purpose options) =
      detailed-Ends since _ _ (create_and_start_instance-Ends env since purpose options)
  handle-Ends (stop_instance id) = plainly-Ends since _ _ (stop_instance-Finishes env since id)
  handle-Ends (hold_instance id) = plainly-Ends since _ _ (hold_instance-Finishes env since id)
  handle-Ends (destroy_instance id options) =
      detailed-Ends since _ _ (Finishes-Ends _ (destroy_instance-Finishes env since id options))
  handle-Ends (deploy req) = plainly-Ends since _ _ (deploy-Finishes env since req)
  handle-Ends (wait_for_adb id t) =
      detailed-Ends since _ _ (Finishes-Ends _ (wait_for_adb-Finishes env since id t))
  handle-Ends (logs id n options) =
      detailed-Ends since _ _ (Finishes-Ends _ (logs-Finishes env since id n options))
  handle-Ends (status id) = plainly-Ends since _ _ (status-Finishes env since id)
  handle-Ends (describe id n) = plainly-Ends since _ _ (describe-Finishes env since id n)
  handle-Ends list_instances = plainly-Ends since _ _ (list_instances-Finishes env since)
  handle-Ends (prune_expired age) =
      plainly-Ends since _ _ (prune_expired_instances-Finishes env since age)
  handle-Ends prune_all = plainly-Ends since _ _ (prune_all_instances-Finishes env since)
