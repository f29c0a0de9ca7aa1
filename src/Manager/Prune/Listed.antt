-- ===== src/Manager/Prune/Listed.antt =====
-- cuttlefish/cfctl/src/daemon/manager.rs: the summaries that `list_instances` returns.
use fundroid.Prelude.{
  ℕ, ◌≤◌, ◌≡◌, ◌⊎◌, inl, inr, arith, Bool, true, false, Option, none, some, List, [], ◌∷◌, ◌++◌,
  All, leb, if◌then◌else◌,
}
use fundroid.Exec.{Result, ok, err, stuck}
use fundroid.Exec.Returns.{Returns, Returns-pure, Returns-bind, Returns-then}
use fundroid.Protocol.{Message, InstanceId, InstanceSummary, destroyed, state_eq}
use fundroid.Files.{InstanceMetadata}
use fundroid.Host.{Env, World, DirEntry, ReadDir, not_found, refused, entries}
use fundroid.Manager.Metadata.{summary}
use fundroid.Manager.Prune.{
  entry_id, read_instances, sorted_insert, sort_by_id, listed, list_entry, list_entries, list_read,
  list_instances,
}

-- The ids ascend.
abbrev pub Ascending : List InstanceSummary → Type 0
Ascending [] = Unit
Ascending (s ∷ ss) = All (λ t. s.id ≤ t.id) ss × Ascending ss

abbrev pub Alive : InstanceSummary → Type 0
Alive s = state_eq s.state destroyed ≡ false

module _ (P : InstanceSummary → Type 0) where
  All-append : (xs ys : List InstanceSummary) → All P xs → All P ys → All P (xs ++ ys)
  All-append [] ys p q = q
  All-append (x ∷ xs) ys p q = (p.0, All-append xs ys p.1 q)

  All-if :
      (b : Bool) (xs ys : List InstanceSummary) → All P xs → All P ys → All P (if b then xs else ys)
  All-if true xs ys p q = p
  All-if false xs ys p q = q

  All-insert :
      (s : InstanceSummary) (ts : List InstanceSummary)
      → P s
      → All P ts
      → All P (sorted_insert s ts)
  unfolding sorted_insert
  All-insert s [] p q = (p, tt)
  All-insert s (t ∷ ts) p q =
      All-if (leb s.id t.id) (s ∷ t ∷ ts) (t ∷ sorted_insert s ts) (p, q)
        (q.0, All-insert s ts p q.1)

  All-sort_by_id : (ss : List InstanceSummary) → All P ss → All P (sort_by_id ss)
  unfolding sort_by_id
  All-sort_by_id [] p = tt
  All-sort_by_id (s ∷ ss) p = All-insert s (sort_by_id ss) p.0 (All-sort_by_id ss p.1)

module _ {P Q : InstanceSummary → Type 0} where
  All-weaken :
      ((s : InstanceSummary) → P s → Q s) → (ss : List InstanceSummary) → All P ss → All Q ss
  All-weaken f [] p = tt
  All-weaken f (s ∷ ss) p = (f s p.0, All-weaken f ss p.1)

leb_cases : (a b : ℕ) → ((leb a b ≡ true) × (a ≤ b)) ⊎ ((leb a b ≡ false) × (b ≤ a))
leb_cases a b = ground arith

Ascending-insert :
    (s : InstanceSummary) (ts : List InstanceSummary)
    → Ascending ts
    → Ascending (sorted_insert s ts)
unfolding sorted_insert
Ascending-insert s [] asc = (tt, tt)
Ascending-insert s (t ∷ ts) asc = elim (leb_cases s.id t.id) [
  | inl (e, le) ↦ rw e ((le, All-weaken (λ u h. omega (arith, h, le)) ts asc.0), asc)
  | inr (e, le) ↦ rw e (All-insert _ s ts le asc.0, Ascending-insert s ts asc.1)
]

sort_by_id-Ascending : (ss : List InstanceSummary) → Ascending (sort_by_id ss)
unfolding sort_by_id
sort_by_id-Ascending [] = tt
sort_by_id-Ascending (s ∷ ss) = Ascending-insert s (sort_by_id ss) (sort_by_id-Ascending ss)

module _ (env : Env) where
  listed-Alive : (r : Result Message InstanceMetadata) → All Alive (listed env r)
  unfolding listed summary
  listed-Alive (ok m) = ground arith
  listed-Alive (err e) = tt
  listed-Alive stuck = tt

  list_entry-Alive : (id : Option InstanceId) → Returns (All Alive) (list_entry env id)
  unfolding list_entry
  list_entry-Alive none = Returns-pure [] tt
  list_entry-Alive (some id) = Returns-bind _ _ λ m. Returns-pure (listed env m) (listed-Alive m)

  list_entries-Alive : (es : List (Option DirEntry)) → Returns (All Alive) (list_entries env es)
  unfolding list_entries
  list_entries-Alive [] = Returns-pure [] tt
  list_entries-Alive (none ∷ es) = record { at = λ s a h. cc }
  list_entries-Alive (some e ∷ es) = Returns-then _ _ (list_entry-Alive (entry_id e)) λ here alive.
      Returns-then _ _ (list_entries-Alive es)
        λ rest left. Returns-pure (here ++ rest) (All-append _ here rest alive left)

  list_read-Listed :
      (dir : ReadDir) → Returns (λ ss. Ascending ss × All Alive ss) (list_read env dir)
  unfolding list_read
  list_read-Listed not_found = Returns-pure [] (tt, tt)
  list_read-Listed refused = record { at = λ s a h. cc }
  list_read-Listed (entries es) = Returns-then _ _ (list_entries-Alive es) λ found alive.
      Returns-pure (sort_by_id found) (sort_by_id-Ascending found, All-sort_by_id _ found alive)

-- The summaries that a listing returns ascend by the id, and none of them is of a destroyed
-- instance, in whatever order the directory has its entries and whatever is on the disk.
pub list_instances-Ascending :
    (env : Env) (w : World) (ss : List InstanceSummary)
    → (list_instances env w).0 ≡ ok ss
    → Ascending ss × All Alive ss
unfolding list_instances
list_instances-Ascending env w ss done =
    (Returns-bind (read_instances env) (list_read env) (list_read-Listed env)).at w ss done
