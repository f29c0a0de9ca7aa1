-- ===== src/Manager/Prune/Held.antt =====
-- cuttlefish/cfctl/src/daemon/manager.rs: the two prunings and held instances.
use fundroid.Prelude.{
  ℕ, ◌≡◌, ◌≢◌, inl, inr, true, Option, none, some, List, [], ◌∷◌, arith, refl, sym, ◌∙◌, ◌==◌,
  Bool-cases, eq_of_==, subst,
}
use fundroid.Exec.Returns.{caught-ok}
use fundroid.Exec.{Result, ok, err, stuck, caught, attempt, ◌>>=◌}
use fundroid.Exec.Keeps.{Keeps, Keeps-bind, Keeps-after, keeps_rules}
use fundroid.Protocol.{Message, InstanceId}
use fundroid.Files.{InstanceMetadata, Contents, file, metadata_file}
use fundroid.Host.{Env, World, Action, DirEntry, ReadDir, not_found, refused, entries}
use fundroid.Host.Untouched.{Untouched, Untouched-refl, Untouched-same, epoch_secs-Untouched}
use fundroid.Manager.Metadata.{metadata}
use fundroid.Manager.Metadata.Source.{metadata-source}
use fundroid.Manager.Metadata.Untouched.{metadata-Untouched}
use fundroid.Manager.Prune.{
  prune_all_loaded, prune_expired_loaded, prune_entry, prune_entries, prune_all_read,
  prune_expired_read, prune_all_instances, prune_expired_instances, read_instances, entry_id,
}
use fundroid.Manager.Prune.Untouched.{prune_and_tally-Untouched}

-- The metadata that can be read of an instance, from the cache or else from the file, say that it
-- is held.
abbrev pub Held : Env → InstanceId → World → Type 0
Held env i w =
    ((m : InstanceMetadata) → w.cache i ≡ some m → m.held ≡ true)
    × ((c : Contents) (m : InstanceMetadata)
        → w.disk metadata_file i ≡ some (file c)
        → env.parse_json c ≡ some m
        → m.held ≡ true)

-- Metadata that were read of a held instance say so.
metadata-Held :
    (env : Env) (i : ℕ) (w : World) (m : InstanceMetadata)
    → Held env i w
    → (metadata env i w).0 ≡ ok m
    → m.held ≡ true
metadata-Held env i w m (in_cache, on_disk) h = elim (metadata-source env i m w h) [
  | inl cached ↦ in_cache m cached
  | inr (c, there, read) ↦ on_disk c m there read
]

-- Nothing that is untouched stops being held.
Untouched-Held : (env : Env) (i : ℕ) (w v : World) → Untouched i w v → Held env i w → Held env i v
Untouched-Held env i w v u (in_cache, on_disk) = (
  (λ m cached. in_cache m (sym u.cache_at ∙ cached)),
  λ c m there read. on_disk c m (sym (u.disk_at metadata_file) ∙ there) read,
)

-- What one of the two loops does with an entry whose metadata were read.
abbrev Loaded : Type 0
Loaded = InstanceId → ℕ × ℕ → Result Message InstanceMetadata → Action (ℕ × ℕ)

record Spares (env : Env) (i : ℕ) (w : World) (loaded : Loaded) : Type 0 where
  another :
      (j : ℕ) (c : ℕ × ℕ) (r : Result Message InstanceMetadata)
      → i ≢ j
      → Keeps (Untouched i w) (loaded j c r)
  held_one :
      (c : ℕ × ℕ) (r : Result Message InstanceMetadata)
      → ((m : InstanceMetadata) → r ≡ ok m → m.held ≡ true)
      → Keeps (Untouched i w) (loaded i c r)

module _ (env : Env) (i j : ℕ) (other : i ≢ j) (w : World) where
  all_another :
      (c : ℕ × ℕ) (r : Result Message InstanceMetadata)
      → Keeps (Untouched i w) (prune_all_loaded env j c r)
  unfolding prune_all_loaded
  all_another c (ok m) = search (keeps_rules, prune_and_tally-Untouched)
  all_another c (err e) = search keeps_rules
  all_another c stuck = search keeps_rules

  expired_another :
      (cutoff : ℕ) (c : ℕ × ℕ) (r : Result Message InstanceMetadata)
      → Keeps (Untouched i w) (prune_expired_loaded env cutoff j c r)
  unfolding prune_expired_loaded
  expired_another cutoff c (ok m) = search (keeps_rules, prune_and_tally-Untouched) depth 9
  expired_another cutoff c (err e) = search keeps_rules
  expired_another cutoff c stuck = search keeps_rules

module _ (env : Env) (i : ℕ) (w : World) where
  all_held :
      (c : ℕ × ℕ) (r : Result Message InstanceMetadata)
      → ((m : InstanceMetadata) → r ≡ ok m → m.held ≡ true)
      → Keeps (Untouched i w) (prune_all_loaded env i c r)
  unfolding prune_all_loaded
  all_held c (ok m) held = rw (held m refl) (search keeps_rules)
  all_held c (err e) held = search keeps_rules
  all_held c stuck held = search keeps_rules

  expired_held :
      (cutoff : ℕ) (c : ℕ × ℕ) (r : Result Message InstanceMetadata)
      → ((m : InstanceMetadata) → r ≡ ok m → m.held ≡ true)
      → Keeps (Untouched i w) (prune_expired_loaded env cutoff i c r)
  unfolding prune_expired_loaded
  expired_held cutoff c (ok m) held = rw (held m refl) (search keeps_rules)
  expired_held cutoff c (err e) held = search keeps_rules
  expired_held cutoff c stuck held = search keeps_rules

  prune_all_loaded-Spares : Spares env i w (prune_all_loaded env)
  prune_all_loaded-Spares = record {
    another = λ j c r other. all_another env i j other w c r;
    held_one = all_held;
  }

  prune_expired_loaded-Spares : (cutoff : ℕ) → Spares env i w (prune_expired_loaded env cutoff)
  prune_expired_loaded-Spares cutoff = record {
    another = λ j c r other. expired_another env i j other w cutoff c r;
    held_one = expired_held cutoff;
  }

module _ (env : Env) (i : ℕ) (w : World) (here : Held env i w) (loaded : Loaded)
    (spares : Spares env i w loaded) where
  -- The entry of the held instance itself.
  own_entry :
      (c : ℕ × ℕ) (v : World)
      → Untouched i w v
      → Untouched i w ((attempt (metadata env i) >>= loaded i c) v).1
  unfolding ◌>>=◌ attempt
  own_entry c v u =
      Keeps-after (caught (metadata env i v).0) (loaded i c) (metadata env i v).1
        ((metadata-Untouched env i w i).run v u)
        λ r same. spares.held_one c r λ m e.
          metadata-Held env i v m (Untouched-Held env i w v u here)
            (caught-ok (metadata env i v).0 r same ∙ e)

  entry-Spared :
      (o : Option InstanceId) (c : ℕ × ℕ) → Keeps (Untouched i w) (prune_entry env loaded o c)
  unfolding prune_entry
  entry-Spared none c = search keeps_rules
  entry-Spared (some id) c = elim (Bool-cases (i == id)) [
    | inl same ↦ record {
      run =
          subst
            (λ k.
              (v : World)
              → Untouched i w v
              → Untouched i w ((attempt (metadata env k) >>= loaded k c) v).1)
            (eq_of_== i id same) (own_entry c);
    }
    | inr other ↦
        Keeps-bind _ _ (search (keeps_rules, metadata-Untouched))
          λ r. spares.another id c r (ground arith)
  ]

  entries-Spared :
      (es : List (Option DirEntry)) (c : ℕ × ℕ)
      → Keeps (Untouched i w) (prune_entries env loaded es c)
  unfolding prune_entries
  entries-Spared [] c = search keeps_rules
  entries-Spared (none ∷ es) c = record { run = λ v u. u }
  entries-Spared (some e ∷ es) c =
      Keeps-bind _ _ (entry-Spared (entry_id e) c) λ c'. entries-Spared es c'

module _ (env : Env) (i : ℕ) (w : World) where
  read_instances-Spared : Keeps (Untouched i w) (read_instances env)
  unfolding read_instances
  read_instances-Spared = record { run = λ v u. Untouched-same _ u refl refl refl }

  read_all-Spared : Held env i w → (r : ReadDir) → Keeps (Untouched i w) (prune_all_read env r)
  unfolding prune_all_read
  read_all-Spared here not_found = search keeps_rules
  read_all-Spared here refused = record { run = λ v u. u }
  read_all-Spared here (entries es) =
      entries-Spared env i w here _ (prune_all_loaded-Spares env i w) es (0, 0)

  read_expired-Spared :
      (max_age : ℕ)
      → Held env i w
      → (r : ReadDir) → Keeps (Untouched i w) (prune_expired_read env max_age r)
  unfolding prune_expired_read
  read_expired-Spared max_age here not_found = search keeps_rules
  read_expired-Spared max_age here refused = record { run = λ v u. u }
  read_expired-Spared max_age here (entries es) =
      Keeps-bind _ _ (epoch_secs-Untouched env i w)
        λ now. entries-Spared env i w here _ (prune_expired_loaded-Spares env i w _) es (0, 0)

  -- Pruning all instances leaves the files, the cached metadata and the registry entry of a held
  -- instance alone, whatever calls fail and whatever the directory lists. Which processes the
  -- cleanup of a pruned instance ends with `pkill` is up to the host, and not part of this.
  pub prune_all_instances-spares : Held env i w → Untouched i w (prune_all_instances env w).1
  unfolding prune_all_instances
  prune_all_instances-spares here =
      (Keeps-bind _ _ read_instances-Spared (read_all-Spared here)).run w (Untouched-refl i w)

  -- Pruning the expired instances leaves the files, the cached metadata and the registry entry of a
  -- held instance alone too, for any age. Which processes end is again up to the host.
  pub prune_expired_instances-spares :
      (max_age : ℕ) → Held env i w → Untouched i w (prune_expired_instances env max_age w).1
  unfolding prune_expired_instances
  prune_expired_instances-spares max_age here =
      (Keeps-bind _ _ read_instances-Spared (read_expired-Spared max_age here)).run w
        (Untouched-refl i w)
