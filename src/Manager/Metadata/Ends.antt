-- ===== src/Manager/Metadata/Ends.antt =====
-- cuttlefish/cfctl/src/daemon/manager.rs: reading metadata never hangs.
use fundroid.Prelude.{ℕ, Option, none, some, arith}
use fundroid.Exec.Finishes.{Finishes, finishes_rules}
use fundroid.Files.{InstanceMetadata, metadata_file}
use fundroid.Host.{Env, World, tick}
use fundroid.Host.Fs
use fundroid.Manager.Metadata.{metadata, load_metadata, parsed, from_cache}
use fundroid.Manager.Metadata.Source.{read-Keeps}

-- For any predicate that the calls of the machine keep.
module _ (env : Env) (P : World → Type 0) (ticks : (v : World) → P v → P (tick env v)) where
  read-Ends : (j : ℕ) → Finishes P (Fs.read env metadata_file j)
  unfolding Fs.read
  read-Ends j = record {
    run = λ v p. (ground arith, (read-Keeps env P ticks metadata_file j).run v p);
  }

  parsed-Ends : (o : Option InstanceMetadata) → Finishes P (parsed o)
  unfolding parsed
  parsed-Ends none = search finishes_rules
  parsed-Ends (some m) = search finishes_rules

  load_metadata-Ends : (j : ℕ) → Finishes P (load_metadata env j)
  unfolding load_metadata
  load_metadata-Ends j = search (finishes_rules, read-Ends, parsed-Ends)

  from_cache-Ends :
      (o : Option InstanceMetadata) (j : ℕ) → Finishes P (from_cache o (load_metadata env j))
  unfolding from_cache
  from_cache-Ends none j = load_metadata-Ends j
  from_cache-Ends (some m) j = search finishes_rules

  pub metadata-Ends : (j : ℕ) → Finishes P (metadata env j)
  unfolding metadata
  metadata-Ends j = record { run = λ v p. (from_cache-Ends (v.cache j) j).run v p }
