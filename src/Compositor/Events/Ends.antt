-- ===== src/Compositor/Events/Ends.antt =====
-- compositor-rs/src/main.rs: the end of the loop of `main`.
use fundroid.Prelude.{ℕ, zero, suc, ◌+◌, ◌*◌, ◌≤◌, ◌≢◌, arith, Option-cases, inl, inr}
use fundroid.Compositor.{Compositor, Kernel}
use fundroid.Compositor.Events.{Rounds, out_of_fuel, round, event_loop}

-- A round sleeps for 10 ms.
abbrev pub Sleeps : Rounds → Type 0
Sleeps r = (n : ℕ) → r.elapsed n + 10 ≤ r.elapsed (n + 1)

loop-ends :
    (k : Kernel) (r : Rounds) (fuel n : ℕ) (c : Compositor)
    → Sleeps r
    → 60000 ≤ r.elapsed n + 10 * fuel
    → event_loop k r (suc fuel) n c ≢ out_of_fuel
unfolding event_loop
loop-ends k r zero n c sleeps enough h = ground arith
loop-ends k r (suc fuel) n c sleeps enough h = elim (Option-cases (round k r n c)) [
  | inl crash ↦ ground arith
  | inr (d, e) ↦
      let next : event_loop k r (suc fuel) (n + 1) d ≢ out_of_fuel =
        loop-ends k r fuel (n + 1) d sleeps (omega (arith, sleeps n, enough)) in
      ground (arith, next)
]

-- The loop ends within 6001 rounds, whatever the clients, the devices and the kernel do, if each
-- round takes the 10 ms for which it sleeps.
pub event_loop-ends :
    (k : Kernel) (r : Rounds) (c : Compositor) → Sleeps r → event_loop k r 6001 0 c ≢ out_of_fuel
event_loop-ends k r c sleeps = loop-ends k r 6000 0 c sleeps (omega arith)
