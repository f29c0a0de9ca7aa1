-- ===== src/Manager/Metadata/Untouched.antt =====
-- cuttlefish/cfctl/src/daemon/manager.rs: the operations on metadata, for other instances.
use fundroid.Prelude.{ℕ, ◌≢◌, Option, none, some, arith, ◌∙◌}
use fundroid.Exec.{Exec}
use fundroid.Exec.Keeps.{Keeps, Keeps-modify, keeps_rules}
use fundroid.Protocol.{InstanceState}
use fundroid.Files.{InstanceMetadata}
use fundroid.Host.{Env, World, Action}
use fundroid.Host.Untouched.{
  Untouched, Untouched-refl, attempt_call-Untouched, read-Untouched, epoch_secs-Untouched,
  create_dir_all-Untouched, write-Untouched, rename-Untouched,
}
use fundroid.Manager.Metadata.{
  parsed, load_metadata, from_cache, metadata, write_metadata, write_env_file, mark_metadata_state,
  cache_insert, cache_remove, by_new_manager,
}

module _ (env : Env) (i : ℕ) (w : World) where
  parsed-Untouched : (m : Option InstanceMetadata) → Keeps (Untouched i w) (parsed m)
  unfolding parsed
  parsed-Untouched none = search keeps_rules
  parsed-Untouched (some m) = search keeps_rules

  load_metadata-Untouched : (j : ℕ) → Keeps (Untouched i w) (load_metadata env j)
  unfolding load_metadata
  load_metadata-Untouched j = search (keeps_rules, read-Untouched, parsed-Untouched)

  from_cache-Untouched :
      (m : Option InstanceMetadata) (load : Action InstanceMetadata)
      → Keeps (Untouched i w) load
      → Keeps (Untouched i w) (from_cache m load)
  unfolding from_cache
  from_cache-Untouched none load k = k
  from_cache-Untouched (some m) load k = search keeps_rules

  -- Reading changes nothing, of any instance.
  pub metadata-Untouched : (j : ℕ) → Keeps (Untouched i w) (metadata env j)
  unfolding metadata
  metadata-Untouched j = record {
    run = λ v u.
        (from_cache-Untouched (v.cache j) (load_metadata env j) (load_metadata-Untouched j)).run v
          u;
  }

-- A manager of its own works on the files alone, and its cache is dropped.
pub by_new_manager-Untouched :
    {E A : Type 0} (i : ℕ) (w : World) (m : Exec World E A)
    → ((u : World) → Keeps (Untouched i u) m)
    → Keeps (Untouched i w) (by_new_manager m)
unfolding by_new_manager
by_new_manager-Untouched i w m k = record {
  run = λ v u.
      let fresh : World = record v { cache = λ j. none } in
      let after = (k fresh).run fresh (Untouched-refl i fresh) in
      record {
        disk_at = λ s. after.disk_at s ∙ u.disk_at s;
        cache_at = u.cache_at;
        registry_at = after.registry_at ∙ u.registry_at;
      };
}

module _ (env : Env) (i j : ℕ) (other : i ≢ j) (w : World) where
  pub cache_insert-Untouched :
      {E : Type 0} (m : InstanceMetadata) → Keeps (Untouched i w) (cache_insert {E = E} j m)
  cache_insert-Untouched m = Keeps-modify _ λ v u. record {
    disk_at = u.disk_at;
    cache_at = ground (arith, u.cache_at);
    registry_at = u.registry_at;
  }

  pub cache_remove-Untouched : {E : Type 0} → Keeps (Untouched i w) (cache_remove {E = E} j)
  cache_remove-Untouched = Keeps-modify _ λ v u. record {
    disk_at = u.disk_at;
    cache_at = ground (arith, u.cache_at);
    registry_at = u.registry_at;
  }

  pub write_metadata-Untouched :
      (m : InstanceMetadata) → Keeps (Untouched i w) (write_metadata env j m)
  unfolding write_metadata
  write_metadata-Untouched m =
      search (keeps_rules, create_dir_all-Untouched, write-Untouched, rename-Untouched)

  pub write_env_file-Untouched :
      (m : InstanceMetadata) → Keeps (Untouched i w) (write_env_file env j m)
  unfolding write_env_file
  write_env_file-Untouched m =
      search
        (
          keeps_rules, write-Untouched, rename-Untouched, epoch_secs-Untouched,
          attempt_call-Untouched,
        )
        depth 12

  pub mark_metadata_state-Untouched :
      (s : InstanceState) → Keeps (Untouched i w) (mark_metadata_state env j s)
  unfolding mark_metadata_state
  mark_metadata_state-Untouched s =
      search
        (
          keeps_rules, epoch_secs-Untouched, metadata-Untouched, create_dir_all-Untouched,
          write_metadata-Untouched, write_env_file-Untouched, cache_insert-Untouched,
        )
        depth 16

pub ruleset metadata_rules = (
  metadata-Untouched, by_new_manager-Untouched, cache_insert-Untouched, cache_remove-Untouched,
  write_metadata-Untouched, write_env_file-Untouched, mark_metadata_state-Untouched,
)
