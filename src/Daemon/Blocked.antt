-- ===== src/Daemon/Blocked.antt =====
-- cuttlefish/cfctl/src/daemon/mod.rs: a request to stop an instance that was started without a wait
-- for adb.
use fundroid.Prelude.{ℕ, ◌≡◌, false, some, refl, suc}
use fundroid.Prelude.Table
use fundroid.Exec.{stuck, attempt, ◌>>=◌}
use fundroid.Protocol.{InstanceId, InstanceActionResponse, stop_instance}
use fundroid.Files.{InstanceMetadata, json}
use fundroid.Host.{Env, World, never}
use fundroid.Manager.Metadata.{by_new_manager}
use fundroid.Manager.Start.Launched.{Watched}
use fundroid.Manager.Destroy.Blocked.{stop_instance-blocked}
use fundroid.Manager.Handle.{handle}
use fundroid.Daemon.{dispatch, respond_to}

-- After a start that did not wait for adb, a request to stop the instance is never answered if the
-- guest does not end, where metadata that were written can be read back and the calls succeed: the
-- exit watcher holds the lock that the stop needs to see the end of its grace period, and SIGKILL is
-- not sent.
pub respond_to-blocked :
    (env : Env) (id : InstanceId) (h : ℕ) (r : InstanceActionResponse) (w : World)
    → Watched env id h r w
    → ((m : InstanceMetadata) → env.parse_json (json m) ≡ some m)
    → ((n : ℕ) → env.wait_end n h ≡ never)
    → ((n : ℕ) → env.fails n ≡ false)
    → (respond_to env (stop_instance id) w).0 ≡ stuck
unfolding respond_to dispatch by_new_manager handle attempt ◌>>=◌
respond_to-blocked env id h r w watched law lasts works =
    let (m, (cached, disk), up, same) = watched.recorded in
    rw
      (stop_instance-blocked env id h m (record w { cache = Table.empty }) refl disk (law m)
        watched.registered watched.locked lasts (works w.calls) (works (suc w.calls)))
      refl
