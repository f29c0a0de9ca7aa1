-- ===== src/TestClient/Interactive.antt =====
-- compositor-rs/src/bin/test-client.rs: a key press in the interactive loop of the client.
use fundroid.Prelude.{
  ◌*◌, ◌≢◌, Option-cases, ℕ, zero, suc, ◌+◌, ◌≤◌, ◌<◌, ◌≡◌, true, some, List, [], ◌∷◌, arith, ◌⊎◌,
  inl, inr,
}
use fundroid.Compositor.{Resource}
use fundroid.TestClient.{
  out_of_fuel, ClientEvent, key_state, Client, unmap, dispatch_pending, update, ClientRounds,
  interactive_loop, after_wait,
}

-- A key is pressed in one of the events.
abbrev pub Pressed : List ClientEvent → Type 0
Pressed [] = ⊥
Pressed (e ∷ es) = ((key : ℕ) × (e ≡ key_state key true)) ⊎ Pressed es

module _ (surface buffer : Resource) (r : ClientRounds) where
  -- The loop gets to a round: it is early enough, and events could be read.
  abbrev pub Gets : ℕ → Type 0
  Gets n = (r.elapsed n < 30000) × ((es : List ClientEvent) × (r.events n ≡ some es))

-- A round sleeps for 16 ms.
abbrev Sleeps : ClientRounds → Type 0
Sleeps r = (n : ℕ) → r.elapsed n + 16 ≤ r.elapsed (n + 1)

loop-ends :
    (surface buffer : Resource) (r : ClientRounds) (fuel n : ℕ) (c : Client)
    → Sleeps r
    → 30000 ≤ r.elapsed n + 16 * fuel
    → interactive_loop surface buffer r (suc fuel) n c ≢ out_of_fuel
unfolding interactive_loop
loop-ends surface buffer r zero n c sleeps enough h = ground arith
loop-ends surface buffer r (suc fuel) n c sleeps enough h = elim (Option-cases (r.events n)) [
  | inl failed ↦ ground arith
  | inr (es, read) ↦ elim (Option-cases (update surface buffer (dispatch_pending es c))) [
    | inl crash ↦ ground arith
    | inr (d, e) ↦
        let next : interactive_loop surface buffer r (suc fuel) (n + 1) d ≢ out_of_fuel =
          loop-ends surface buffer r fuel (n + 1) d sleeps (omega (arith, sleeps n, enough)) in
        ground (arith, next)
  ]
]

-- The client ends within 1876 rounds, if each takes the 16 ms for which it sleeps.
after_wait-ends :
    (surface buffer : Resource) (r : ClientRounds) (c : Client)
    → Sleeps r
    → after_wait surface buffer r 1876 c ≢ out_of_fuel
unfolding after_wait
after_wait-ends surface buffer r c sleeps h =
    let run : interactive_loop surface buffer r 1876 0 (unmap c) ≢ out_of_fuel =
      loop-ends surface buffer r 1875 0 (unmap c) sleeps (omega arith) in
    ground (arith, run)
