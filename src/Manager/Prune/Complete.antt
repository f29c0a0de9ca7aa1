-- ===== src/Manager/Prune/Complete.antt =====
-- cuttlefish/cfctl/src/daemon/manager.rs: the instances that `list_instances` does not miss.
use fundroid.Prelude.{
  ℕ, ◌≡◌, ◌⊎◌, inl, inr, refl, subst, arith, Bool, true, false, Option, none, some, List, [], ◌∷◌,
  ◌++◌, All, leb, is_some, if◌then◌else◌, ◌==◌, Bool-cases, eq_of_==,
}
use fundroid.Exec.{ok, pure, ◌>>=◌, attempt}
use fundroid.Exec.Yields.{Yields, Yields-attempt, Yields-pure, Yields-bind}
use fundroid.Protocol.{Message, InstanceId, InstanceSummary, destroyed, state_eq}
use fundroid.Files.{InstanceMetadata, metadata_file, file, json}
use fundroid.Host.{Env, World, DirEntry, entries, tick}
use fundroid.Manager.Metadata.{summary, metadata}
use fundroid.Manager.Metadata.Ends.{metadata-Ends}
use fundroid.Manager.Metadata.Source.{metadata-read}
use fundroid.Manager.Prune.{
  entry_id, read_instances, sorted_insert, sort_by_id, listed, list_entry, list_entries, list_read,
  list_instances,
}
use fundroid.Manager.Prune.Listed.{Ascending, Alive, list_instances-Ascending}

abbrev pub In : InstanceSummary → List InstanceSummary → Type 0
In s [] = ⊥
In s (t ∷ ts) = (s ≡ t) ⊎ In s ts

-- No entry of the directory fails to be read.
abbrev pub Readable : List (Option DirEntry) → Type 0
Readable es = All (λ e. is_some e ≡ true) es

-- One of the entries is the directory of the instance.
abbrev pub Names : InstanceId → List (Option DirEntry) → Type 0
Names id [] = ⊥
Names id (none ∷ es) = Names id es
Names id (some e ∷ es) = (entry_id e ≡ some id) ⊎ Names id es

module _ (s : InstanceSummary) where
  In-append : (xs ys : List InstanceSummary) → In s xs ⊎ In s ys → In s (xs ++ ys)
  In-append [] ys (inl h) = absurd h
  In-append [] ys (inr h) = h
  In-append (x ∷ xs) ys (inl (inl h)) = inl h
  In-append (x ∷ xs) ys (inl (inr h)) = inr (In-append xs ys (inl h))
  In-append (x ∷ xs) ys (inr h) = inr (In-append xs ys (inr h))

  In-if :
      (b : Bool) (xs ys : List InstanceSummary) → In s xs → In s ys → In s (if b then xs else ys)
  In-if true xs ys p q = p
  In-if false xs ys p q = q

  In-insert :
      (t : InstanceSummary) (ts : List InstanceSummary) → In s (t ∷ ts) → In s (sorted_insert t ts)
  unfolding sorted_insert
  In-insert t [] h = h
  In-insert t (u ∷ us) (inl h) =
      In-if (leb t.id u.id) (t ∷ u ∷ us) (u ∷ sorted_insert t us) (inl h)
        (inr (In-insert t us (inl h)))
  In-insert t (u ∷ us) (inr (inl h)) =
      In-if (leb t.id u.id) (t ∷ u ∷ us) (u ∷ sorted_insert t us) (inr (inl h)) (inl h)
  In-insert t (u ∷ us) (inr (inr h)) =
      In-if (leb t.id u.id) (t ∷ u ∷ us) (u ∷ sorted_insert t us) (inr (inr h))
        (inr (In-insert t us (inr h)))

  In-sort_by_id : (ss : List InstanceSummary) → In s ss → In s (sort_by_id ss)
  unfolding sort_by_id
  In-sort_by_id [] h = h
  In-sort_by_id (t ∷ ss) (inl h) = In-insert t (sort_by_id ss) (inl h)
  In-sort_by_id (t ∷ ss) (inr h) = In-insert t (sort_by_id ss) (inr (In-sort_by_id ss h))

either : {A B C D : Type 0} → (A → C) → (B → D) → A ⊎ B → C ⊎ D
either f g (inl a) = inl (f a)
either f g (inr b) = inr (g b)

module _ (env : Env) (id : InstanceId) (m : InstanceMetadata)
    (alive : state_eq m.state destroyed ≡ false) (law : env.parse_json (json m) ≡ some m)
    (works : (n : ℕ) → env.fails n ≡ false) where
  -- The metadata are on the disk, and not cached, as for a manager that is new.
  abbrev Stored : World → Type 0
  Stored v = (v.cache id ≡ none) × (v.disk metadata_file id ≡ some (file (json m)))

  own_entry :
      Yields Stored
        (λ here v. Stored v × (some id ≡ some id → In (summary env m) here))
        (list_entry env (some id))
  unfolding list_entry listed ◌>>=◌ attempt
  own_entry = record {
    run = λ v c.
        rw (metadata-read env id m v c.0 c.1 law (works v.calls))
          (rw alive (_, refl, (c, λ h. inl refl)));
  }

  entry-Yields :
      (o : Option InstanceId)
      → Yields Stored
          (λ here v. Stored v × (o ≡ some id → In (summary env m) here))
          (list_entry env o)
  unfolding list_entry listed
  entry-Yields none = Yields-pure [] λ v c. (c, λ h. cc)
  entry-Yields (some j) = elim (Bool-cases (id == j)) [
    | inl same ↦
        subst
          (λ k.
            Yields Stored (λ here v. Stored v × (some k ≡ some id → In (summary env m) here))
              (list_entry env (some k)))
          (eq_of_== id j same) own_entry
    | inr other ↦
        Yields-bind _ _ (Yields-attempt (metadata env j) (metadata-Ends env Stored (λ v c. c) j))
          λ r. Yields-pure (listed env r) λ v c. (c, λ h. absurd (ground arith))
  ]

  joined :
      {M N : Type 0} (here rest : List InstanceSummary)
      → (M → In (summary env m) here)
      → Yields
          (λ v. Stored v × (N → In (summary env m) rest))
          (λ ss v. Stored v × (M ⊎ N → In (summary env m) ss))
          (pure {E = Message} (here ++ rest))
  joined here rest own =
      Yields-pure (here ++ rest)
        λ v (c, others). (c, λ named. In-append _ here rest (either own others named))

  entries-Yields :
      (es : List (Option DirEntry))
      → Readable es
      → Yields Stored
          (λ ss v. Stored v × (Names id es → In (summary env m) ss))
          (list_entries env es)
  unfolding list_entries
  entries-Yields [] readable = Yields-pure [] λ v c. (c, λ h. h)
  entries-Yields (none ∷ es) (h, readable) = absurd (ground arith)
  entries-Yields (some e ∷ es) (h, readable) = Yields-bind _ _ (entry-Yields (entry_id e)) λ here.
      record {
        run = λ v (c, own).
            (Yields-bind _ _ (entries-Yields es readable) λ rest. joined here rest own).run v c;
      }

  read-Yields :
      (es : List (Option DirEntry))
      → Readable es
      → Names id es
      → Yields Stored (λ ss v. In (summary env m) ss) (list_read env (entries es))
  unfolding list_read
  read-Yields es readable named =
      Yields-bind _ _ (entries-Yields es readable)
        λ found. Yields-pure (sort_by_id found) λ v (c, here). In-sort_by_id _ found (here named)

-- A manager that is new, with an empty cache, lists every instance: where the directory, its entries
-- and the metadata files can be read, the listing returns, and each instance that is named by an entry
-- and has metadata in its file, which do not say that it is destroyed, is in it; the summaries ascend
-- by the id and none is of a destroyed instance.
pub list_instances-lists :
    (env : Env) (w : World) (id : InstanceId) (m : InstanceMetadata) (es : List (Option DirEntry))
    → env.read_dir w.calls ≡ entries es
    → Readable es
    → Names id es
    → w.cache id ≡ none
    → w.disk metadata_file id ≡ some (file (json m))
    → env.parse_json (json m) ≡ some m
    → ((n : ℕ) → env.fails n ≡ false)
    → state_eq m.state destroyed ≡ false
    → (ss : List InstanceSummary) × ((list_instances env w).0 ≡ ok ss)
      × In (summary env m) ss
      × Ascending ss
      × All Alive ss
unfolding list_instances read_instances ◌>>=◌
list_instances-lists env w id m es dir readable named missing there law works alive =
    let (ss, done, here) =
      (read-Yields env id m alive law works es readable named).run (tick env w) (missing, there) in
    let e : (list_instances env w).0 ≡ ok ss = rw dir done in
    let (asc, living) = list_instances-Ascending env w ss e in (ss, e, here, asc, living)
