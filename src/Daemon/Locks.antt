-- ===== src/Daemon/Locks.antt =====
-- cuttlefish/cfctl/src/daemon/mod.rs: the table of the instances' locks, and the requests that go
-- through `dispatch` at the same time. Only requests that lock an instance are here; `target` gives
-- the instance of each.
pub mod Exclusive
pub mod Race
pub mod Emptied
pub mod Refines
use fundroid.Prelude.{ℕ, ◌+◌, ◌≡◌, ◌≢◌, Bool, true, false, Option, none, some, ◌==◌, if◌then◌else◌}
use fundroid.Prelude.Table
use fundroid.Prelude.Table.{Table}
use fundroid.Protocol.{InstanceId}

-- `instance_locks`, with a number for each mutex that was allocated, and whether it is locked.
pub record Locks : Type 0 where
  pub table : Table ℕ
  pub fresh : ℕ
  pub locked : ℕ → Bool

-- The `Arc` that `lock_instance` gets from the entry, before it waits.
clone_entry : InstanceId → Locks → Option ℕ → ℕ × Locks
clone_entry id s (some lock) = (lock, s)
clone_entry id s none = (
  s.fresh,
  record s {
    table = Table.insert id s.fresh s.table;
    fresh = s.fresh + 1;
    locked = λ l. if l == s.fresh then false else s.locked l;
  },
)

unfoldable pub lock_instance : InstanceId → Locks → ℕ × Locks
unfolding clone_entry
lock_instance id s = clone_entry id s (s.table id)

abbrev pub set_locked : ℕ → Bool → Locks → Locks
set_locked lock b s = record s { locked = λ l. if l == lock then b else s.locked l }

-- Where a request stands, with the mutex that it has an `Arc` of.
pub data Pc : Type 0 where
  arrived : Pc  -- before `lock_instance`
  waiting : (lock : ℕ) → Pc  -- in `lock_owned`
  inside : (lock : ℕ) → Pc  -- it has the guard: the blocking handler
  leaving : (lock : ℕ) → Pc  -- the guard is being dropped: the mutex is free, the `Arc` is not
  handled : Pc  -- before `cleanup_instance_lock`
  removing : Pc  -- `should_remove`, and the reference to the entry is dropped
  done : Pc

abbrev pub uses : Pc → Option ℕ
uses (waiting lock) = some lock
uses (inside lock) = some lock
uses (leaving lock) = some lock
uses _ = none

pub record System : Type 0 where
  pub locks : Locks
  pub pc : ℕ → Pc

abbrev pub update : (ℕ → Pc) → ℕ → Pc → ℕ → Pc
update f i p j = if j == i then p else f j

-- One step of request `i`, from where it stands to the locks and the place after it. The count of
-- an `Arc` in the table is 1 if no request has a clone of it.
pub data Move (target : ℕ → InstanceId) (s : System) (i : ℕ) : Pc → Locks → Pc → Type 0 where
  look_up :
      Move target s i arrived
        (lock_instance (target i) s.locks).1
        (waiting (lock_instance (target i) s.locks).0)
  acquire :
      {l : ℕ}
      → s.locks.locked l ≡ false
      → Move target s i (waiting l) (set_locked l true s.locks) (inside l)
  release : {l : ℕ} → Move target s i (inside l) (set_locked l false s.locks) (leaving l)
  answer : {l : ℕ} → Move target s i (leaving l) s.locks handled
  fail : {l : ℕ} → Move target s i (leaving l) s.locks done  -- the `?` behind the join
  absent : s.locks.table (target i) ≡ none → Move target s i handled s.locks done
  shared :
      {l : ℕ} (j : ℕ)
      → s.locks.table (target i) ≡ some l
      → uses (s.pc j) ≡ some l
      → Move target s i handled s.locks done
  alone :
      {l : ℕ}
      → s.locks.table (target i) ≡ some l
      → ((j : ℕ) → uses (s.pc j) ≢ some l)
      → Move target s i handled s.locks removing
  remove :
      Move target s i removing
        (record s.locks { table = Table.remove (target i) s.locks.table })
        done

pub data Step (target : ℕ → InstanceId) (s : System) : System → Type 0 where
  pick :
      (i : ℕ) {locks : Locks} {p : Pc}
      → Move target s i (s.pc i) locks p
      → Step target s (record { locks = locks; pc = update s.pc i p })

-- `CfctlDaemon::new`.
abbrev pub new : System
new = record {
  locks = record { table = Table.empty; fresh = 0; locked = λ l. false };
  pc = λ i. arrived;
}

pub data Reach (target : ℕ → InstanceId) : System → Type 0 where
  start : Reach target new
  later : {s t : System} → Reach target s → Step target s t → Reach target t
