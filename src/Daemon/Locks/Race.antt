-- ===== src/Daemon/Locks/Race.antt =====
-- cuttlefish/cfctl/src/daemon/mod.rs: a run of three requests that `cleanup_instance_lock` lets in
-- together.
use fundroid.Prelude.{ℕ, ◌≡◌, refl, sym, Option, none, some, ==_refl, subst, arith}
use fundroid.Protocol.{InstanceId}
use fundroid.Daemon.Locks.{
  Locks, lock_instance, clone_entry, Pc, arrived, waiting, inside, System, update, Move, look_up,
  acquire, release, answer, alone, remove, pick, Reach, start, later,
}

module _ (target : ℕ → InstanceId) {s : System} (r : Reach target s) (i : ℕ) where
  abbrev put : Locks → Pc → System
  put locks p = record { locks = locks; pc = update s.pc i p }

  go :
      {p q : Pc} {locks : Locks}
      → s.pc i ≡ p
      → Move target s i p locks q
      → Reach target (put locks q)
  go {p} {q} {locks} here m = later r (pick i (subst (λ x. Move target s i x locks q) (sym here) m))

  enter :
      (o : Option ℕ)
      → s.pc i ≡ arrived
      → s.locks.table (target i) ≡ o
      → Reach target
          (put (clone_entry (target i) s.locks o).1 (waiting (clone_entry (target i) s.locks o).0))
  unfolding lock_instance
  enter o here e =
      subst
        (λ x.
          Reach target (
            put (clone_entry (target i) s.locks x).1
              (waiting (clone_entry (target i) s.locks x).0)))
        e (go here look_up)

module _ (id : InstanceId) where
  abbrev all : ℕ → InstanceId
  all j = id

  -- A request is handled and finds that nobody has a clone of its lock; a second one takes a clone
  -- before the entry is removed, and a third one finds no entry and allocates another mutex.
  pub mutual_exclusion-fails :
      (s : System) × Reach all s × (s.pc 1 ≡ inside 0) × (s.pc 2 ≡ inside 1)
  unfolding clone_entry
  mutual_exclusion-fails =
      let a = enter all start 0 none refl refl in
      let b = go all a 0 refl (acquire {l = 0} refl) in
      let c = go all b 0 refl release in
      let d = go all c 0 refl answer in
      let e = go all d 0 refl (alone {l = 0} (rw (==_refl id) refl) (λ j. ground arith)) in
      let f = enter all e 1 (some 0) refl (rw (==_refl id) refl) in
      let g = go all f 1 refl (acquire {l = 0} refl) in
      let h = go all g 0 refl remove in
      let k = enter all h 2 none refl (rw (==_refl id) refl) in
      (_, go all k 2 refl (acquire {l = 1} refl), refl, refl)
