-- ===== src/Manager/Metadata/Source.antt =====
-- cuttlefish/cfctl/src/daemon/manager.rs: where the metadata come from that `metadata` returns.
use fundroid.Prelude.{
  false, ℕ, ◌≡◌, ◌⊎◌, inl, inr, Bool-cases, Option, none, some, arith, refl, Option-cases,
}
use fundroid.Exec.{ok, map_err, ◌>>=◌}
use fundroid.Protocol.{InstanceId}
use fundroid.Files.{json, InstanceMetadata, Contents, Node, dir, file, metadata_file}
use fundroid.Host.{Env, World, Action, tick}
use fundroid.Exec.Keeps.{Keeps, keeps_rules}
use fundroid.Files.{Slot}
use fundroid.Host.Fs
use fundroid.Manager.Metadata.{metadata, load_metadata, from_cache, parsed}

module _ (env : Env) (i : InstanceId) (m : InstanceMetadata) where
  parsed-source :
      (c : Contents) (o : Option InstanceMetadata) (v : World)
      → env.parse_json c ≡ o
      → (parsed o v).0 ≡ ok m
      → env.parse_json c ≡ some m
  unfolding parsed
  parsed-source c none v same h = cc
  parsed-source c (some n) v same h = cc

  load-source :
      (n : Option Node) (w : World)
      → w.disk metadata_file i ≡ n
      → (load_metadata env i w).0 ≡ ok m
      → (c : Contents) × (w.disk metadata_file i ≡ some (file c)) × (env.parse_json c ≡ some m)
  unfolding load_metadata Fs.read map_err ◌>>=◌
  load-source none w e h = absurd (ground arith)
  load-source (some dir) w e h = absurd (ground arith)
  load-source (some (file c)) w e h = elim (Bool-cases (env.fails w.calls)) [
    | inl bad ↦ absurd (ground arith)
    | inr good ↦ (c, e, parsed-source c (env.parse_json c) (tick env w) refl (ground arith))
  ]

  pub metadata-source :
      (w : World)
      → (metadata env i w).0 ≡ ok m
      → (w.cache i ≡ some m)
        ⊎ ((c : Contents) × (w.disk metadata_file i ≡ some (file c)) × (env.parse_json c ≡ some m))
  unfolding metadata from_cache
  metadata-source w h = elim (Option-cases (w.cache i)) [
    | inr (n, cached) ↦ inl (ground arith)
    | inl missing ↦ inr (load-source (w.disk metadata_file i) w refl (ground arith))
  ]

-- Reading metadata takes calls and time, and changes nothing else.
module _ (env : Env) (P : World → Type 0) (ticks : (v : World) → P v → P (tick env v)) where
  pub read-Keeps : (s : Slot) (j : ℕ) → Keeps P (Fs.read env s j)
  unfolding Fs.read
  read-Keeps s j = record {
    run = λ v p. elim (Bool-cases (env.fails v.calls)) [
      | inl bad ↦ rw bad (ticks v p)
      | inr good ↦ rw good (ticks v p)
    ];
  }

  parsed-Keeps : (o : Option InstanceMetadata) → Keeps P (parsed o)
  unfolding parsed
  parsed-Keeps none = search keeps_rules
  parsed-Keeps (some m) = search keeps_rules

  load_metadata-Keeps : (j : ℕ) → Keeps P (load_metadata env j)
  unfolding load_metadata
  load_metadata-Keeps j = search (keeps_rules, read-Keeps, parsed-Keeps)

  from_cache-Keeps :
      (o : Option InstanceMetadata) (load : Action InstanceMetadata)
      → Keeps P load
      → Keeps P (from_cache o load)
  unfolding from_cache
  from_cache-Keeps none load k = k
  from_cache-Keeps (some m) load k = search keeps_rules

  pub metadata-Keeps : (j : ℕ) → Keeps P (metadata env j)
  unfolding metadata
  metadata-Keeps j = record {
    run = λ v. (from_cache-Keeps (v.cache j) (load_metadata env j) (load_metadata-Keeps j)).run v;
  }

-- Cached metadata are returned at once.
pub metadata-cached :
    (env : Env) (i : ℕ) (m : InstanceMetadata) (w : World)
    → w.cache i ≡ some m
    → metadata env i w ≡ (ok m, w)
unfolding metadata from_cache
metadata-cached env i m w cached = rw cached refl

-- Metadata that are not cached are read from the file in one call.
pub metadata-read :
    (env : Env) (i : ℕ) (m : InstanceMetadata) (w : World)
    → w.cache i ≡ none
    → w.disk metadata_file i ≡ some (file (json m))
    → env.parse_json (json m) ≡ some m
    → env.fails w.calls ≡ false
    → metadata env i w ≡ (ok m, tick env w)
unfolding metadata from_cache load_metadata parsed Fs.read map_err ◌>>=◌
metadata-read env i m w missing there law works = rw missing (rw works (rw there (rw law refl)))
