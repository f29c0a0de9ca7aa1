-- ===== src/Manager/Alloc/Untouched.antt =====
-- cuttlefish/cfctl/src/daemon/manager.rs: `hold_instance`, for other instances.
use fundroid.Prelude.{ℕ, ◌≢◌}
use fundroid.Exec.Keeps.{Keeps, keeps_rules}
use fundroid.Host.{Env, World}
use fundroid.Host.Untouched.{Untouched, epoch_secs-Untouched}
use fundroid.Manager.Metadata.Untouched.{metadata_rules}
use fundroid.Manager.Alloc.{hold_instance}

pub hold_instance-Untouched :
    (env : Env) (i j : ℕ) (other : i ≢ j) (w : World) → Keeps (Untouched i w) (hold_instance env j)
unfolding hold_instance
hold_instance-Untouched env i j other w =
    search (keeps_rules, metadata_rules, epoch_secs-Untouched) depth 12
