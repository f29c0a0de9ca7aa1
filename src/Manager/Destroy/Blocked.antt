-- ===== src/Manager/Destroy/Blocked.antt =====
-- cuttlefish/cfctl/src/daemon/manager.rs: `stop_instance` of a guest whose exit watcher waits.
use fundroid.Prelude.{ℕ, ◌≡◌, true, false, none, some, refl, suc}
use fundroid.Exec.{stuck, ◌>>=◌}
use fundroid.Protocol.{InstanceId}
use fundroid.Files.{InstanceMetadata, json}
use fundroid.Host.{Env, World, never, tick}
use fundroid.Manager.Metadata.Recorded.{OnDisk}
use fundroid.Manager.Metadata.Source.{metadata-read}
use fundroid.Manager.Terminate.Blocked.{terminate_guest-blocked}
use fundroid.Manager.Destroy.{stop_instance}

pub stop_instance-blocked :
    (env : Env) (id : InstanceId) (h : ℕ) (m : InstanceMetadata) (w : World)
    → w.cache id ≡ none
    → OnDisk id m w
    → env.parse_json (json m) ≡ some m
    → w.registry id ≡ some h
    → (w.handles h).locked ≡ true
    → ((n : ℕ) → env.wait_end n h ≡ never)
    → env.fails w.calls ≡ false
    → env.fails (suc w.calls) ≡ false
    → (stop_instance env id w).0 ≡ stuck
unfolding stop_instance ◌>>=◌
stop_instance-blocked env id h m w missing there law registered locked lasts read sent =
    rw (metadata-read env id m w missing there law read)
      (rw (terminate_guest-blocked env id 10000 h (tick env w) registered locked lasts sent) refl)
