-- ===== src/Manager/Alloc/Search.antt =====
-- cuttlefish/cfctl/src/daemon/manager.rs: the search of `allocate_id` for a free slot.
use fundroid.Prelude.{
  sym, subst, ℕ, zero, suc, ◌+◌, ◌-◌, ◌%◌, ◌≤◌, ◌<◌, ◌≡◌, ◌⊎◌, inl, inr, Option-cases,
  if◌then◌else◌, Bool, true, false, Option, none, some, arith, is_some,
}
use fundroid.Exec.{pure, ◌>>=◌}
use fundroid.Exec.Yields.{Yields, Yields-bind, Yields-pure}
use fundroid.Protocol.{InstanceId}
use fundroid.Files.{Disk, Slot, root, metadata_file}
use fundroid.Host.{Env, World}
use fundroid.Host.Fs
use fundroid.Manager.Alloc.{occupied, wrapped, successor, select_id}

abbrev pub Shows : Disk → World → Type 0
Shows d v = (s : Slot) (i : InstanceId) → v.disk s i ≡ d s i

-- An id from 1 to 99 whose instance has neither a metadata file nor a directory.
abbrev pub Free : Disk → InstanceId → Type 0
Free d i = (1 ≤ i) × (i ≤ 99) × (d metadata_file i ≡ none) × (d root i ≡ none)

abbrev pub Taken : Disk → InstanceId → Type 0
Taken d i = (is_some (d metadata_file i) ≡ true) ⊎ (is_some (d root i) ≡ true)

-- The candidate after `k` rounds.
abbrev pub candidate_at : ℕ → ℕ → ℕ
candidate_at c k = (c - 1 + k) % 99 + 1

abbrev pub Verdict : Disk → ℕ → ℕ → Option InstanceId → Type 0
Verdict d rounds c none = (k : ℕ) → k < rounds → Taken d (candidate_at c k)
Verdict d rounds c (some id) = Free d id

abbrev Answer : Disk → InstanceId → Bool → World → Type 0
Answer d c true v = Shows d v × Taken d c
Answer d c false v = Shows d v × (d metadata_file c ≡ none) × (d root c ≡ none)

occupied-Yields :
    (env : Env) (d : Disk) (c : InstanceId) → Yields (Shows d) (Answer d c) (occupied env c)
unfolding occupied Fs.exists ◌>>=◌
occupied-Yields env d c = record {
  run = λ w p. elim (Option-cases (w.disk metadata_file c)) [
    | inr (n, known) ↦ (true, ground arith, (ground arith, inl (ground (arith, p metadata_file c))))
    | inl unknown ↦ elim (Option-cases (w.disk root c)) [
      | inr (n, there) ↦ (true, ground arith, (ground arith, inr (ground (arith, p root c))))
      | inl missing ↦ (
        false,
        ground arith,
        (ground arith, ground (arith, p metadata_file c), ground (arith, p root c)),
      )
    ]
  ];
}

-- The rounds after the first are the rounds from the next candidate.
candidate_at-suc :
    (c k : ℕ) → 1 ≤ c → c ≤ 99 → candidate_at (successor c) k ≡ candidate_at c (suc k)
candidate_at-suc c k low high = omega arith

candidate_at-zero : (c : ℕ) → 1 ≤ c → c ≤ 99 → candidate_at c 0 ≡ c
candidate_at-zero c low high = omega arith

-- The candidates of 99 rounds are all the ids.
pub candidate_at-all :
    (c i : ℕ) → 1 ≤ c → c ≤ 99 → 1 ≤ i → i ≤ 99 → (k : ℕ) × (k < 99) × (candidate_at c k ≡ i)
candidate_at-all c i low high low' high' = ((i + 99 - c) % 99, omega arith, omega arith)

pub wrapped-low : (c : ℕ) → 1 ≤ wrapped c
wrapped-low c = ground arith

pub wrapped-high : (c : ℕ) → wrapped c ≤ 99
wrapped-high c = ground arith

wrapped-successor : (c : ℕ) → wrapped (successor c) ≡ successor c
wrapped-successor c = ground (arith, candidate_at-low c)
  where
    candidate_at-low : (c : ℕ) → (1 ≤ successor c) × (successor c ≤ 99)
    candidate_at-low c = (omega arith, omega arith)

-- One more round, whose candidate was taken.
Verdict-suc :
    (d : Disk) (rounds c : ℕ) (o : Option InstanceId)
    → 1 ≤ c
    → c ≤ 99
    → Taken d c
    → Verdict d rounds (successor c) o
    → Verdict d (suc rounds) c o
Verdict-suc d rounds c (some id) low high taken free = free
Verdict-suc d rounds c none low high taken rest = all
  where
    all : (k : ℕ) → k < suc rounds → Taken d (candidate_at c k)
    all zero h = subst (Taken d) (sym (candidate_at-zero c low high)) taken
    all (suc k) h = subst (Taken d) (candidate_at-suc c k low high) (rest k (omega arith))

abbrev pub Selected : Disk → ℕ → ℕ → Option InstanceId × ℕ → World → Type 0
Selected d rounds c r v =
    Shows d v × Verdict d rounds c r.0 × ((i : InstanceId) → r.0 ≡ some i → r.1 ≡ successor i)

-- A round and those after it.
round-Yields :
    (env : Env) (d : Disk) (rounds c : ℕ)
    → Yields
        (Shows d)
        (Selected d rounds (wrapped (successor (wrapped c))))
        (select_id env rounds (successor (wrapped c)))
    → (taken : Bool)
    → Yields (Answer d (wrapped c) taken) (Selected d (suc rounds) (wrapped c)) (
        if taken
        then select_id env rounds (successor (wrapped c))
        else pure (some (wrapped c), successor (wrapped c)))
round-Yields env d rounds c later true = record {
  run = λ w (p, taken).
      let (r, e, (q, verdict, next)) = later.run w p in
      (
        r,
        e,
        (
          q,
          Verdict-suc d rounds (wrapped c) r.0 (wrapped-low c) (wrapped-high c) taken
              (subst (λ x. Verdict d rounds x r.0) (wrapped-successor (wrapped c)) verdict),
          next,
        ),
      );
}
round-Yields env d rounds c later false = Yields-pure _ λ w (p, unknown, missing).
    (p, (wrapped-low c, wrapped-high c, unknown, missing), λ i e. ground arith)

pub select_id-Yields :
    (env : Env) (d : Disk) (rounds c : ℕ)
    → Yields (Shows d) (Selected d rounds (wrapped c)) (select_id env rounds c)
unfolding select_id
select_id-Yields env d zero c = Yields-pure _ λ w p. (p, (λ k h. absurd (omega arith)), λ i e. cc)
select_id-Yields env d (suc rounds) c =
    Yields-bind _ _ (occupied-Yields env d (wrapped c))
      (round-Yields env d rounds c (select_id-Yields env d rounds (successor (wrapped c))))
