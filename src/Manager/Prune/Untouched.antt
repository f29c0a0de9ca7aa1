-- ===== src/Manager/Prune/Untouched.antt =====
-- cuttlefish/cfctl/src/daemon/manager.rs: pruning an instance, for other instances.
use fundroid.Prelude.{ℕ, ◌≢◌, Option, none, some}
use fundroid.Exec.{Result, ok, err, stuck, attempt, ◌>>=◌}
use fundroid.Exec.Keeps.{Keeps, keeps_rules}
use fundroid.Protocol.{Message}
use fundroid.Files.{InstanceMetadata}
use fundroid.Host.{Env, World}
use fundroid.Host.Untouched.{Untouched}
use fundroid.Manager.Metadata.{by_new_manager}
use fundroid.Manager.Metadata.Untouched.{metadata_rules, by_new_manager-Untouched}
use fundroid.Manager.Cleanup.{CleanupOutcome}
use fundroid.Manager.Destroy.{finish_destroy}
use fundroid.Manager.Destroy.Untouched.{prepare_destroy-Untouched, finish_destroy-Untouched}
use fundroid.Manager.Prune.{after_cleanup, keep_metadata, prune_instance, prune_and_tally}

module _ (env : Env) (i j : ℕ) (other : i ≢ j) (w : World) where
  after_cleanup-Untouched :
      (r : Result Message CleanupOutcome) → Keeps (Untouched i w) (after_cleanup env j r)
  unfolding after_cleanup
  after_cleanup-Untouched (ok outcome) = search (keeps_rules, metadata_rules) depth 12
  after_cleanup-Untouched (err e) = search (keeps_rules, metadata_rules) depth 12
  after_cleanup-Untouched stuck = search keeps_rules

  keep_metadata-Untouched :
      (m : Option InstanceMetadata) → Keeps (Untouched i w) (keep_metadata j m)
  unfolding keep_metadata
  keep_metadata-Untouched none = search keeps_rules
  keep_metadata-Untouched (some m) = search metadata_rules

  cleanup-Untouched :
      Keeps (Untouched i w) (attempt {F = Message} (finish_destroy env j) >>= after_cleanup env j)
  cleanup-Untouched =
      search (keeps_rules, finish_destroy-Untouched, after_cleanup-Untouched) depth 9

module _ (env : Env) (i j : ℕ) (other : i ≢ j) (w : World) where
  by_another-Untouched :
      Keeps
        (Untouched i w)
        (by_new_manager (attempt {F = Message} (finish_destroy env j) >>= after_cleanup env j))
  by_another-Untouched = by_new_manager-Untouched i w _ (cleanup-Untouched env i j other)

  pub prune_instance-Untouched : Keeps (Untouched i w) (prune_instance env j)
  unfolding prune_instance
  prune_instance-Untouched =
      search (keeps_rules, prepare_destroy-Untouched, by_another-Untouched, keep_metadata-Untouched)
        depth 12

  pub prune_and_tally-Untouched :
      (counts : ℕ × ℕ) → Keeps (Untouched i w) (prune_and_tally env j counts)
  unfolding prune_and_tally
  prune_and_tally-Untouched counts = search (keeps_rules, prune_instance-Untouched) depth 9
