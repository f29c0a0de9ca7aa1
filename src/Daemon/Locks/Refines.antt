-- ===== src/Daemon/Locks/Refines.antt =====
-- cuttlefish/cfctl/src/daemon/mod.rs: the table of locks implements one lock for each instance.
use fundroid.Prelude.{
  ℕ, ◌≡◌, ◌≢◌, inl, inr, refl, false, none, some, List, [], ◌∷◌, ◌==◌, arith, Bool-cases,
  Option-cases,
}
use fundroid.Prelude.Table
use fundroid.Prelude.Table.{Table}
use fundroid.Protocol.{InstanceId}
use fundroid.Daemon.Locks.{
  Locks, Pc, waiting, inside, leaving, System, update, Move, look_up, acquire, release, answer,
  fail, absent, shared, alone, remove, pick, Reach, start, later,
}
use fundroid.Daemon.Locks.Exclusive.{Calm, Inv, Reach-Inv}

-- What is seen of a run: which request begins to be handled, and which is handled no more.
pub data Label : Type 0 where
  came : ℕ → Label
  went : ℕ → Label

-- What the table is for: the request that is handled for each instance, if any. A request comes in
-- where none is, and goes out; the list has what happened, the last first.
pub data Spec (target : ℕ → InstanceId) : List Label → Table ℕ → Type 0 where
  nobody : Spec target [] Table.empty
  come_in :
      {history : List Label} {occupant : Table ℕ} (i : ℕ)
      → Spec target history occupant
      → occupant (target i) ≡ none
      → Spec target (came i ∷ history) (Table.insert (target i) i occupant)
  go_out :
      {history : List Label} {occupant : Table ℕ} (i : ℕ)
      → Spec target history occupant
      → occupant (target i) ≡ some i
      → Spec target (went i ∷ history) (Table.remove (target i) occupant)

-- What is seen of one step, before what was seen earlier: the guard is taken, or dropped.
abbrev pub seen :
    {target : ℕ → InstanceId} {s : System} {i : ℕ} {p q : Pc} {locks : Locks}
    → Move target s i p locks q
    → List Label
    → List Label
seen look_up history = history
seen {i = i} (acquire free) history = came i ∷ history
seen {i = i} release history = went i ∷ history
seen answer history = history
seen fail history = history
seen (absent e) history = history
seen (shared j e u) history = history
seen (alone e unshared) history = history
seen remove history = history

-- What is seen of a run, the last first.
abbrev pub trace : {target : ℕ → InstanceId} {s : System} → Reach target s → List Label
trace start = []
trace (later r (pick i m)) = seen m (trace r)

-- The occupants are the requests that have a guard.
pub record Occupied (target : ℕ → InstanceId) (occupant : Table ℕ) (pc : ℕ → Pc) : Type 0 where
  pub is_inside : (k i : ℕ) → occupant k ≡ some i → (l : ℕ) × (target i ≡ k) × (pc i ≡ inside l)
  pub is_occupant : (i l : ℕ) → pc i ≡ inside l → occupant (target i) ≡ some i

abbrev pub Simulated : (ℕ → InstanceId) → List Label → (ℕ → Pc) → Type 0
Simulated target history pc =
    (occupant : Table ℕ) × Spec target history occupant × Occupied target occupant pc

module _ (target : ℕ → InstanceId) (s : System) (i : ℕ) (history : List Label) where
  -- A step that neither starts nor ends the handling of the request.
  stutter :
      (p : Pc)
      → ((l : ℕ) → s.pc i ≢ inside l)
      → ((l : ℕ) → p ≢ inside l)
      → Simulated target history s.pc
      → Simulated target history (update s.pc i p)
  stutter p before after (occupant, spec, occ) = (
    occupant,
    spec,
    record {
      is_inside =
          λ k j h. let (l, same, e) = occ.is_inside k j h in (l, same, ground (arith, before l));
      is_occupant = λ j l h. ground (arith, occ.is_occupant j l, after l);
    },
  )

  acquire-Simulated :
      (l : ℕ)
      → Inv target s.locks s.pc
      → s.pc i ≡ waiting l
      → s.locks.locked l ≡ false
      → Simulated target history s.pc
      → Simulated target (came i ∷ history) (update s.pc i (inside l))
  acquire-Simulated l inv here free (occupant, spec, occ) =
      elim (Option-cases (occupant (target i))) [
        | inl nobody_there ↦ (
          _,
          come_in i spec nobody_there,
          record {
            is_inside = λ k j h. elim (Bool-cases (k == target i)) [
              | inl same ↦ (l, ground arith, ground arith)
              | inr other ↦
                  let (m, same, e) = occ.is_inside k j (ground arith) in (m, same, ground arith)
            ];
            is_occupant = λ j m h. ground (arith, occ.is_occupant j m);
          },
        )
        | inr (j, there) ↦
            let (m, same, e) = occ.is_inside (target i) j there in
            absurd (ground (arith, inv.entered i l, inv.entered j m, inv.held j m))
      ]

  release-Simulated :
      (l : ℕ)
      → s.pc i ≡ inside l
      → Simulated target history s.pc
      → Simulated target (went i ∷ history) (update s.pc i (leaving l))
  release-Simulated l here (occupant, spec, occ) = (
    _,
    go_out i spec (occ.is_occupant i l here),
    record {
      is_inside =
          λ k j h. let (m, same, e) = occ.is_inside k j (ground arith) in (m, same, ground arith);
      is_occupant = λ j m h. ground (arith, occ.is_occupant j m, occ.is_occupant i l);
    },
  )

  Move-Simulated :
      {p q : Pc} {locks : Locks} (m : Move target s i p locks q)
      → s.pc i ≡ p
      → Inv target s.locks s.pc
      → Simulated target history s.pc
      → Simulated target (seen m history) (update s.pc i q)
  Move-Simulated look_up here inv sim = stutter _ (λ l h. cc) (λ l h. cc) sim
  Move-Simulated (acquire {l} free) here inv sim = acquire-Simulated l inv here free sim
  Move-Simulated (release {l}) here inv sim = release-Simulated l here sim
  Move-Simulated answer here inv sim = stutter _ (λ l h. cc) (λ l h. cc) sim
  Move-Simulated fail here inv sim = stutter _ (λ l h. cc) (λ l h. cc) sim
  Move-Simulated (absent e) here inv sim = stutter _ (λ l h. cc) (λ l h. cc) sim
  Move-Simulated (shared j e u) here inv sim = stutter _ (λ l h. cc) (λ l h. cc) sim
  Move-Simulated (alone e unshared) here inv sim = stutter _ (λ l h. cc) (λ l h. cc) sim
  Move-Simulated remove here inv sim = stutter _ (λ l h. cc) (λ l h. cc) sim

-- A run in which no request looks its lock up during another one's cleanup of the same instance
-- implements the specification: what is seen of the run, which requests begin and cease to be handled
-- and in which order, is what is seen of a run of `Spec`, and its occupants at the end are the requests
-- that are being handled then.
pub Reach-Simulated :
    {target : ℕ → InstanceId} {s : System} (r : Reach target s)
    → Calm r
    → Simulated target (trace r) s.pc
Reach-Simulated start calm =
    (_, nobody, record { is_inside = λ k i h. cc; is_occupant = λ i l h. cc })
Reach-Simulated (later {s} r (pick i m)) (calm, last) =
    Move-Simulated _ s i (trace r) m refl (Reach-Inv r calm) (Reach-Simulated r calm)
