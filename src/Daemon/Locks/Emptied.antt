-- ===== src/Daemon/Locks/Emptied.antt =====
-- cuttlefish/cfctl/src/daemon/mod.rs: the entries that the requests leave in the table.
use fundroid.Prelude.{
  ℕ, ◌<◌, ◌≡◌, ◌≢◌, ◌⊎◌, inl, inr, refl, Bool, true, false, Option, none, some, ◌==◌, arith,
  Bool-cases,
}
use fundroid.Prelude.Table
use fundroid.Protocol.{InstanceId}
use fundroid.Daemon.Locks.{
  Locks, lock_instance, clone_entry, Pc, arrived, waiting, inside, leaving, handled, removing, done,
  uses, System, update, Move, look_up, acquire, release, answer, fail, absent, shared, alone,
  remove, Step, pick, new, Reach, start, later,
}

-- Between the two ends of `dispatch`.
abbrev pub active : Pc → Bool
active arrived = false
active done = false
active _ = true

abbrev pub AnsweredMove :
    {target : ℕ → InstanceId} {s : System} {i : ℕ} {p q : Pc} {l : Locks}
    → Move target s i p l q
    → Type 0
AnsweredMove fail = ⊥
AnsweredMove _ = Unit

abbrev pub AnsweredStep : {target : ℕ → InstanceId} {s t : System} → Step target s t → Type 0
AnsweredStep (pick i m) = AnsweredMove m

-- A run in which no request leaves `dispatch` with an error.
abbrev pub Answered : {target : ℕ → InstanceId} {s : System} → Reach target s → Type 0
Answered start = Unit
Answered (later r step) = Answered r × AnsweredStep step

-- Some request for the instance is under way.
abbrev pub Busy : (ℕ → InstanceId) → (ℕ → Pc) → InstanceId → Type 0
Busy target pc k = (j : ℕ) × (target j ≡ k) × (active (pc j) ≡ true)

record Inv (target : ℕ → InstanceId) (locks : Locks) (pc : ℕ → Pc) : Type 0 where
  bound : (k l : ℕ) → locks.table k ≡ some l → l < locks.fresh
  used : (j l : ℕ) → uses (pc j) ≡ some l → l < locks.fresh
  apart : (k m l : ℕ) → locks.table k ≡ some l → locks.table m ≡ some l → k ≡ m
  own : (j k l : ℕ) → locks.table k ≡ some l → uses (pc j) ≡ some l → target j ≡ k
  busy : (k l : ℕ) → locks.table k ≡ some l → Busy target pc k

Inv-new : (target : ℕ → InstanceId) → Inv target new.locks new.pc
Inv-new target = record {
  bound = λ k l e. cc;
  used = λ j l e. cc;
  apart = λ k m l e e'. cc;
  own = λ j k l e e'. cc;
  busy = λ k l e. cc;
}

module _ (target : ℕ → InstanceId) (s : System) (inv : Inv target s.locks s.pc) (i : ℕ) where
  abbrev After : Locks → Pc → Type 0
  After locks p = Inv target locks (update s.pc i p)

  -- A request that goes on is still under way.
  on :
      (p : Pc)
      → active p ≡ true
      → (k : InstanceId) → Busy target s.pc k
      → Busy target (update s.pc i p) k
  on p act k (j, same, run) = (j, same, ground arith)

  -- Another request for the instance is under way where this one is not.
  but :
      (p : Pc) (k : InstanceId)
      → target i ≢ k
      → Busy target s.pc k
      → Busy target (update s.pc i p) k
  but p k other (j, same, run) = (j, same, ground arith)

  look_up-Inv :
      (o : Option ℕ)
      → s.locks.table (target i) ≡ o
      → After (clone_entry (target i) s.locks o).1 (waiting (clone_entry (target i) s.locks o).0)
  unfolding clone_entry
  look_up-Inv (some l) e = record {
    bound = inv.bound;
    used = λ j k u. ground (arith, inv.used j k, inv.bound (target i) k);
    apart = inv.apart;
    own = λ j k m h u. ground (arith, inv.own j k m, inv.apart (target i) k m);
    busy = λ k m h. on (waiting l) refl k (inv.busy k m h);
  }
  look_up-Inv none e = record {
    bound = λ k l h. ground (arith, inv.bound k l);
    used = λ j k u. ground (arith, inv.used j k);
    apart = λ k m l h h'. ground (arith, inv.apart k m l, inv.bound k l, inv.bound m l);
    own = λ j k m h u. ground (arith, inv.own j k m, inv.bound k m, inv.used j m);
    busy = λ k m h. elim (Bool-cases (k == target i)) [
      | inl same ↦ (i, ground arith, ground arith)
      | inr other ↦ on (waiting s.locks.fresh) refl k (inv.busy k m (ground arith))
    ];
  }

  -- A step that leaves the table alone, to a place with the same mutex or none.
  stay-Inv :
      (locks : Locks) (p : Pc)
      → locks.table ≡ s.locks.table
      → locks.fresh ≡ s.locks.fresh
      → (uses p ≡ uses (s.pc i)) ⊎ (uses p ≡ none)
      → ((k l : ℕ) → s.locks.table k ≡ some l → Busy target (update s.pc i p) k)
      → After locks p
  stay-Inv locks p same_table same_fresh mutex busy = record {
    bound = λ k l. rw (same_table, same_fresh) (inv.bound k l);
    used = λ j l. rw same_fresh (λ u. ground (arith, inv.used j l, inv.used i l));
    apart = rw same_table inv.apart;
    own = rw same_table (λ j k l h u. ground (arith, inv.own j k l, inv.own i k l));
    busy = rw same_table busy;
  }

  going_on :
      (p : Pc)
      → active p ≡ true
      → (k l : ℕ) → s.locks.table k ≡ some l
      → Busy target (update s.pc i p) k
  going_on p act k l h = on p act k (inv.busy k l h)

  absent-Inv : s.locks.table (target i) ≡ none → After s.locks done
  absent-Inv e =
      stay-Inv s.locks done refl refl (inr refl)
        λ k l h. but done k (λ same. ground arith) (inv.busy k l h)

  shared-Inv :
      (j l : ℕ)
      → s.pc i ≡ handled
      → s.locks.table (target i) ≡ some l
      → uses (s.pc j) ≡ some l
      → After s.locks done
  shared-Inv j l here e u = stay-Inv s.locks done refl refl (inr refl) λ k m h.
      elim (Bool-cases (k == target i)) [
        | inl same ↦ (j, ground (arith, inv.own j k l), ground arith)
        | inr other ↦ but done k (λ same. ground arith) (inv.busy k m h)
      ]

  remove-Inv : After (record s.locks { table = Table.remove (target i) s.locks.table }) done
  remove-Inv = record {
    bound = λ k l h. ground (arith, inv.bound k l);
    used = λ j l u. ground (arith, inv.used j l);
    apart = λ k m l h h'. ground (arith, inv.apart k m l);
    own = λ j k l h u. ground (arith, inv.own j k l);
    busy = λ k l h. but done k (λ same. ground arith) (inv.busy k l (ground arith));
  }

  Move-Inv :
      {p q : Pc} {locks : Locks}
      → (m : Move target s i p locks q) → s.pc i ≡ p
      → AnsweredMove m
      → After locks q
  unfolding lock_instance
  Move-Inv look_up here ans = look_up-Inv (s.locks.table (target i)) refl
  Move-Inv (acquire {l} free) here ans =
      stay-Inv _ (inside l) refl refl (inl (ground arith)) (going_on (inside l) refl)
  Move-Inv (release {l}) here ans =
      stay-Inv _ (leaving l) refl refl (inl (ground arith)) (going_on (leaving l) refl)
  Move-Inv answer here ans = stay-Inv _ handled refl refl (inr refl) (going_on handled refl)
  Move-Inv fail here ans = absurd ans
  Move-Inv (absent e) here ans = absent-Inv e
  Move-Inv (shared {l} j e u) here ans = shared-Inv j l here e u
  Move-Inv (alone e unshared) here ans =
      stay-Inv _ removing refl refl (inr refl) (going_on removing refl)
  Move-Inv remove here ans = remove-Inv

Step-Inv :
    (target : ℕ → InstanceId) (s t : System) (step : Step target s t)
    → AnsweredStep step
    → Inv target s.locks s.pc
    → Inv target t.locks t.pc
Step-Inv target s t (pick i m) ans inv = Move-Inv target s inv i m refl ans

Reach-Inv :
    {target : ℕ → InstanceId} {s : System} (r : Reach target s)
    → Answered r
    → Inv target s.locks s.pc
Reach-Inv {target} start ans = Inv-new target
Reach-Inv {target} (later r step) (ans, last) = Step-Inv target _ _ step last (Reach-Inv r ans)

-- Where no request ends with an error, an instance that has an entry in the table has a request
-- under way, in whatever order the requests run.
pub entry-Busy :
    {target : ℕ → InstanceId} {s : System} (r : Reach target s)
    → Answered r
    → (k l : ℕ) → s.locks.table k ≡ some l
    → Busy target s.pc k
entry-Busy r ans = (Reach-Inv r ans).busy
