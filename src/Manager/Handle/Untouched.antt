-- ===== src/Manager/Handle/Untouched.antt =====
-- cuttlefish/cfctl/src/daemon/manager.rs: requests that name an instance, for other instances.
use fundroid.Prelude.{ℕ, ◌≢◌}
use fundroid.Exec.{Exec, Result, ok, err, stuck}
use fundroid.Exec.Keeps.{Keeps, keeps_rules}
use fundroid.Protocol.{
  stop_instance, start_instance, hold_instance, destroy_instance, deploy, wait_for_adb, logs,
  status, describe, StartOptions, DestroyOptions, DeployRequest, LogsOptions, ErrorDetail,
}
use fundroid.Protocol.Reply.{Response}
use fundroid.Host.{Env, World, Action}
use fundroid.Host.Untouched.{Untouched}
use fundroid.Manager.Alloc.Untouched.{hold_instance-Untouched}
use fundroid.Manager.Start.Untouched.{start_instance-Untouched}
use fundroid.Manager.Destroy.Untouched.{
  stop_instance-Untouched, destroy_instance-Untouched, deploy-Untouched,
}
use fundroid.Manager.Adb.Untouched.{wait_for_adb-Untouched}
use fundroid.Manager.Logs.Untouched.{logs-Untouched, status-Untouched, describe-Untouched}
use fundroid.Manager.Handle.{respond, detailed, plainly, handle}

module _ {A : Type 0} (i : ℕ) (w : World) (f : A → Response) where
  respond-Untouched : (r : Result ErrorDetail A) → Keeps (Untouched i w) (respond f r)
  unfolding respond
  respond-Untouched (ok a) = search keeps_rules
  respond-Untouched (err e) = search keeps_rules
  respond-Untouched stuck = search keeps_rules

  detailed-Untouched :
      (m : Exec World ErrorDetail A)
      → Keeps (Untouched i w) m
      → Keeps (Untouched i w) (detailed f m)
  detailed-Untouched m km = search (keeps_rules, respond-Untouched)

  plainly-Untouched : (m : Action A) → Keeps (Untouched i w) m → Keeps (Untouched i w) (plainly f m)
  plainly-Untouched m km = search keeps_rules

module _ (env : Env) (i j : ℕ) (other : i ≢ j) (w : World) where
  pub start-Untouched :
      (options : StartOptions) → Keeps (Untouched i w) (handle env (start_instance j options))
  unfolding handle
  start-Untouched options =
      detailed-Untouched i w _ _ (start_instance-Untouched env i j other w options)

  pub stop-Untouched : Keeps (Untouched i w) (handle env (stop_instance j))
  unfolding handle
  stop-Untouched = plainly-Untouched i w _ _ (stop_instance-Untouched env i j other w)

  pub hold-Untouched : Keeps (Untouched i w) (handle env (hold_instance j))
  unfolding handle
  hold-Untouched = plainly-Untouched i w _ _ (hold_instance-Untouched env i j other w)

  pub destroy-Untouched :
      (options : DestroyOptions) → Keeps (Untouched i w) (handle env (destroy_instance j options))
  unfolding handle
  destroy-Untouched options =
      detailed-Untouched i w _ _ (destroy_instance-Untouched env i j other w options)

  pub wait_request-Untouched : (t : _) → Keeps (Untouched i w) (handle env (wait_for_adb j t))
  unfolding handle
  wait_request-Untouched t = detailed-Untouched i w _ _ (wait_for_adb-Untouched env i j other w t)

module _ (env : Env) (i j : ℕ) (w : World) where
  pub logs_request-Untouched :
      (n : _) (options : LogsOptions) → Keeps (Untouched i w) (handle env (logs j n options))
  unfolding handle
  logs_request-Untouched n options = detailed-Untouched i w _ _ (logs-Untouched env i w j n options)

  pub status_request-Untouched : Keeps (Untouched i w) (handle env (status j))
  unfolding handle
  status_request-Untouched = plainly-Untouched i w _ _ (status-Untouched env i w j)

  pub describe_request-Untouched : (n : _) → Keeps (Untouched i w) (handle env (describe j n))
  unfolding handle
  describe_request-Untouched n = plainly-Untouched i w _ _ (describe-Untouched env i w j n)

pub deploy_request-Untouched :
    (env : Env) (i : ℕ) (w : World) (req : DeployRequest)
    → i ≢ req.id
    → Keeps (Untouched i w) (handle env (deploy req))
unfolding handle
deploy_request-Untouched env i w req other =
    plainly-Untouched i w _ _ (deploy-Untouched env i w req other)
