-- ===== src/Manager/Metadata/Finishes.antt =====
-- cuttlefish/cfctl/src/daemon/manager.rs: the end of the operations on metadata.
use fundroid.Prelude.{ℕ, Option, none, some}
use fundroid.Exec.{Exec}
use fundroid.Exec.Finishes.{Finishes, finishes_rules}
use fundroid.Protocol.{InstanceState}
use fundroid.Files.{InstanceMetadata}
use fundroid.Host.{Env, World, Action}
use fundroid.Host.Unhindered.{
  Unhindered, attempt_call-Finishes, read-Finishes, epoch_secs-Finishes, create_dir_all-Finishes,
  write-Finishes, rename-Finishes,
}
use fundroid.Manager.Metadata.{
  parsed, load_metadata, from_cache, metadata, write_metadata, write_env_file, mark_metadata_state,
  cache_insert, cache_remove, by_new_manager,
}

module _ (env : Env) (since : ℕ) where
  parsed-Finishes : (m : Option InstanceMetadata) → Finishes (Unhindered since) (parsed m)
  unfolding parsed
  parsed-Finishes none = search finishes_rules
  parsed-Finishes (some m) = search finishes_rules

  load_metadata-Finishes : (j : ℕ) → Finishes (Unhindered since) (load_metadata env j)
  unfolding load_metadata
  load_metadata-Finishes j = search (finishes_rules, read-Finishes, parsed-Finishes)

  from_cache-Finishes :
      (m : Option InstanceMetadata) (load : Action InstanceMetadata)
      → Finishes (Unhindered since) load
      → Finishes (Unhindered since) (from_cache m load)
  unfolding from_cache
  from_cache-Finishes none load k = k
  from_cache-Finishes (some m) load k = search finishes_rules

  pub metadata-Finishes : (j : ℕ) → Finishes (Unhindered since) (metadata env j)
  unfolding metadata
  metadata-Finishes j = record {
    run = λ v u.
        (from_cache-Finishes (v.cache j) (load_metadata env j) (load_metadata-Finishes j)).run v u;
  }

-- A manager of its own has another cache, and the same handles and clock.
pub by_new_manager-Finishes :
    {E A : Type 0} (since : ℕ) (m : Exec World E A)
    → Finishes (Unhindered since) m
    → Finishes (Unhindered since) (by_new_manager m)
unfolding by_new_manager
by_new_manager-Finishes since m k = record {
  run = λ v u.
      let fresh : World = record v { cache = λ j. none } in
      let (ends, after) = k.run fresh (record { unlocked = u.unlocked; later = u.later }) in
      (ends, record { unlocked = after.unlocked; later = after.later });
}

module _ (env : Env) (since j : ℕ) where
  pub cache_insert-Finishes :
      {E : Type 0} (m : InstanceMetadata) → Finishes (Unhindered since) (cache_insert {E = E} j m)
  cache_insert-Finishes m = record {
    run = λ v u. ((λ h. cc), record { unlocked = u.unlocked; later = u.later });
  }

  pub cache_remove-Finishes : {E : Type 0} → Finishes (Unhindered since) (cache_remove {E = E} j)
  cache_remove-Finishes = record {
    run = λ v u. ((λ h. cc), record { unlocked = u.unlocked; later = u.later });
  }

  pub write_metadata-Finishes :
      (m : InstanceMetadata) → Finishes (Unhindered since) (write_metadata env j m)
  unfolding write_metadata
  write_metadata-Finishes m =
      search (finishes_rules, create_dir_all-Finishes, write-Finishes, rename-Finishes)

  pub write_env_file-Finishes :
      (m : InstanceMetadata) → Finishes (Unhindered since) (write_env_file env j m)
  unfolding write_env_file
  write_env_file-Finishes m =
      search
        (
          finishes_rules, write-Finishes, rename-Finishes, epoch_secs-Finishes,
          attempt_call-Finishes,
        )
        depth 12

  pub mark_metadata_state-Finishes :
      (s : InstanceState) → Finishes (Unhindered since) (mark_metadata_state env j s)
  unfolding mark_metadata_state
  mark_metadata_state-Finishes s =
      search
        (
          finishes_rules, epoch_secs-Finishes, metadata-Finishes, create_dir_all-Finishes,
          write_metadata-Finishes, write_env_file-Finishes, cache_insert-Finishes,
        )
        depth 16

pub ruleset metadata_finishes = (
  metadata-Finishes, cache_insert-Finishes, cache_remove-Finishes, write_metadata-Finishes,
  write_env_file-Finishes, mark_metadata_state-Finishes,
)
