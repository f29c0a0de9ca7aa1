-- ===== src/Manager/Terminate/Blocked.antt =====
-- cuttlefish/cfctl/src/daemon/manager.rs: `terminate_guest` on a guest whose exit watcher waits.
use fundroid.Prelude.{ℕ, ◌≡◌, some, false, true, arith, suc}
use fundroid.Exec.{stuck, ◌>>=◌}
use fundroid.Protocol.{InstanceId}
use fundroid.Host.{Env, World, never, tick}
use fundroid.Guest.{signal, get}
use fundroid.Guest.Timeout.{wait_timeout-blocked}
use fundroid.Manager.Terminate.{terminate_guest, terminate_handle}

-- A guest whose exit watcher holds its lock, and which SIGTERM does not end, blocks its termination
-- for ever, whatever the grace period: SIGTERM is sent, and SIGKILL never is.
pub terminate_guest-blocked :
    (env : Env) (id : InstanceId) (grace h : ℕ) (w : World)
    → w.registry id ≡ some h
    → (w.handles h).locked ≡ true
    → ((n : ℕ) → env.wait_end n h ≡ never)
    → env.fails w.calls ≡ false
    → (terminate_guest env id grace w).0 ≡ stuck
unfolding terminate_guest terminate_handle get signal ◌>>=◌
terminate_guest-blocked env id grace h w registered locked lasts sent =
    ground (arith, wait_timeout-blocked env h grace (tick env w) locked (lasts (suc (suc w.calls))))
