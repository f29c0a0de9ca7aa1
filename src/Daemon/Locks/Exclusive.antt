-- ===== src/Daemon/Locks/Exclusive.antt =====
-- cuttlefish/cfctl/src/daemon/mod.rs: when two requests are not handled for one instance at once.
use fundroid.Prelude.{ℕ, ◌<◌, ◌≡◌, ◌≢◌, refl, true, false, Option, none, some, arith}
use fundroid.Prelude.Table
use fundroid.Protocol.{InstanceId}
use fundroid.Daemon.Locks.{
  Locks, lock_instance, clone_entry, set_locked, Pc, arrived, waiting, inside, leaving, handled,
  removing, done, uses, System, update, Move, look_up, acquire, release, answer, fail, absent,
  shared, alone, remove, Step, pick, new, Reach, start, later,
}

-- No other request for the instance stands between the two steps of its cleanup.
abbrev pub CalmMove :
    {target : ℕ → InstanceId} {s : System} {i : ℕ} {p q : Pc} {l : Locks}
    → Move target s i p l q
    → Type 0
CalmMove {target} {s} {i} look_up = (j : ℕ) → s.pc j ≡ removing → target j ≢ target i
CalmMove _ = Unit

abbrev pub CalmStep : {target : ℕ → InstanceId} {s t : System} → Step target s t → Type 0
CalmStep (pick i m) = CalmMove m

-- A run in which no request looks up a lock while another one's cleanup is about to remove it.
abbrev pub Calm : {target : ℕ → InstanceId} {s : System} → Reach target s → Type 0
Calm start = Unit
Calm (later r step) = Calm r × CalmStep step

pub record Inv (target : ℕ → InstanceId) (locks : Locks) (pc : ℕ → Pc) : Type 0 where
  pub bound : (k l : ℕ) → locks.table k ≡ some l → l < locks.fresh
  pub entered : (j l : ℕ) → uses (pc j) ≡ some l → locks.table (target j) ≡ some l
  pub unused : (j k l : ℕ) → pc j ≡ removing → uses (pc k) ≡ some l → target k ≢ target j
  pub held : (j l : ℕ) → pc j ≡ inside l → locks.locked l ≡ true
  pub single : (j k l : ℕ) → pc j ≡ inside l → pc k ≡ inside l → j ≡ k

Inv-new : (target : ℕ → InstanceId) → Inv target new.locks new.pc
Inv-new target = record {
  bound = λ k l e. cc;
  entered = λ j l e. cc;
  unused = λ j k l r e. cc;
  held = λ j l e. cc;
  single = λ j k l e e'. cc;
}

module _ (target : ℕ → InstanceId) (s : System) (inv : Inv target s.locks s.pc) (i : ℕ) where
  abbrev After : Locks → Pc → Type 0
  After locks p = Inv target locks (update s.pc i p)

  look_up-Inv :
      (o : Option ℕ)
      → s.locks.table (target i) ≡ o
      → s.pc i ≡ arrived
      → ((j : ℕ) → s.pc j ≡ removing → target j ≢ target i)
      → After (clone_entry (target i) s.locks o).1 (waiting (clone_entry (target i) s.locks o).0)
  unfolding clone_entry
  look_up-Inv (some l) e here calm = record {
    bound = inv.bound;
    entered = λ j k u. ground (arith, inv.entered j k);
    unused = λ j k m r u. ground (arith, inv.unused j k m, calm j);
    held = λ j k u. ground (arith, inv.held j k);
    single = λ j k m u v. ground (arith, inv.single j k m);
  }
  look_up-Inv none e here calm = record {
    bound = λ k l h. ground (arith, inv.bound k l);
    entered = λ j k u. ground (arith, inv.entered j k);
    unused = λ j k m r u. ground (arith, inv.unused j k m, calm j);
    held = λ j k u. ground (arith, inv.held j k, inv.entered j k, inv.bound (target j) k);
    single = λ j k m u v. ground (arith, inv.single j k m);
  }

  -- A request goes on with the mutex that it has, and the others are where they were.
  acquire-Inv :
      (l : ℕ)
      → s.pc i ≡ waiting l
      → s.locks.locked l ≡ false
      → After (set_locked l true s.locks) (inside l)
  acquire-Inv l here free = record {
    bound = inv.bound;
    entered = λ j k u. ground (arith, inv.entered j k, inv.entered i l);
    unused = λ j k m r u. ground (arith, inv.unused j k m, inv.unused j i l);
    held = λ j k u. ground (arith, inv.held j k);
    single = λ j k m u v. ground (arith, inv.single j k m, inv.held j m, inv.held k m);
  }

  release-Inv : (l : ℕ) → s.pc i ≡ inside l → After (set_locked l false s.locks) (leaving l)
  release-Inv l here = record {
    bound = inv.bound;
    entered = λ j k u. ground (arith, inv.entered j k, inv.entered i l);
    unused = λ j k m r u. ground (arith, inv.unused j k m, inv.unused j i l);
    held = λ j k u. ground (arith, inv.held j k, inv.single j i l);
    single = λ j k m u v. ground (arith, inv.single j k m);
  }

  -- A step to a place without a mutex, other than `removing`.
  drop-Inv : (p : Pc) → uses p ≡ none → p ≢ removing → After s.locks p
  drop-Inv p none_used other = record {
    bound = inv.bound;
    entered = λ j k u. ground (arith, inv.entered j k);
    unused = λ j k m r u. ground (arith, inv.unused j k m);
    held = λ j k u. ground (arith, inv.held j k);
    single = λ j k m u v. ground (arith, inv.single j k m);
  }

  alone-Inv :
      (l : ℕ)
      → s.locks.table (target i) ≡ some l
      → ((j : ℕ) → uses (s.pc j) ≢ some l)
      → After s.locks removing
  alone-Inv l e unshared = record {
    bound = inv.bound;
    entered = λ j k u. ground (arith, inv.entered j k);
    unused = λ j k m r u. ground (arith, inv.unused j k m, inv.entered k m, unshared k);
    held = λ j k u. ground (arith, inv.held j k);
    single = λ j k m u v. ground (arith, inv.single j k m);
  }

  remove-Inv :
      s.pc i ≡ removing
      → After (record s.locks { table = Table.remove (target i) s.locks.table }) done
  remove-Inv here = record {
    bound = λ k l h. ground (arith, inv.bound k l);
    entered = λ j k u. ground (arith, inv.entered j k, inv.unused i j k);
    unused = λ j k m r u. ground (arith, inv.unused j k m);
    held = λ j k u. ground (arith, inv.held j k);
    single = λ j k m u v. ground (arith, inv.single j k m);
  }

  Move-Inv :
      {p q : Pc} {locks : Locks}
      → (m : Move target s i p locks q) → s.pc i ≡ p
      → CalmMove m
      → After locks q
  unfolding lock_instance
  Move-Inv look_up here calm = look_up-Inv (s.locks.table (target i)) refl here calm
  Move-Inv (acquire {l} free) here calm = acquire-Inv l here free
  Move-Inv (release {l}) here calm = release-Inv l here
  Move-Inv answer here calm = drop-Inv handled refl (λ h. cc)
  Move-Inv fail here calm = drop-Inv done refl (λ h. cc)
  Move-Inv (absent e) here calm = drop-Inv done refl (λ h. cc)
  Move-Inv (shared j e u) here calm = drop-Inv done refl (λ h. cc)
  Move-Inv (alone {l} e unshared) here calm = alone-Inv l e unshared
  Move-Inv remove here calm = remove-Inv here

Step-Inv :
    (target : ℕ → InstanceId) (s t : System) (step : Step target s t)
    → CalmStep step
    → Inv target s.locks s.pc
    → Inv target t.locks t.pc
Step-Inv target s t (pick i m) calm inv = Move-Inv target s inv i m refl calm

pub Reach-Inv :
    {target : ℕ → InstanceId} {s : System} (r : Reach target s) → Calm r → Inv target s.locks s.pc
Reach-Inv {target} start calm = Inv-new target
Reach-Inv {target} (later r step) (calm, last) = Step-Inv target _ _ step last (Reach-Inv r calm)

-- In a run in which no request looks its lock up between the two steps with which another request
-- for the same instance removes it, two requests are never handled for one instance at once.
pub mutual_exclusion :
    {target : ℕ → InstanceId} {s : System} (r : Reach target s)
    → Calm r
    → (i j k l : ℕ) → s.pc i ≡ inside k
    → s.pc j ≡ inside l
    → target i ≡ target j
    → i ≡ j
mutual_exclusion {target} {s} r calm i j k l in_i in_j same =
    ground (arith, inv.entered i k, inv.entered j l, inv.single i j k)
  where
    inv : Inv target s.locks s.pc
    inv = Reach-Inv r calm
