-- ===== src/Guest/Timeout.antt =====
-- cuttlefish/cfctl/src/daemon/guest.rs: the end of `wait_timeout`, with and without the lock of the
-- child's state.
use fundroid.Prelude.{
  ℕ, zero, suc, ◌+◌, ◌*◌, ◌/◌, ◌≤◌, ◌<◌, ◌≡◌, ◌≢◌, true, false, Option, none, some, arith, leb, inl,
  inr, Bool-cases,
}
use fundroid.Exec.{Result, ok, err, stuck, ◌>>=◌, ◌>>◌, continue}
use fundroid.Protocol.{Message}
use fundroid.Host.{Env, World, ExitStatusInfo, Action, tick, never}
use fundroid.Host.Os.{instant_now, sleep_ms}
use fundroid.Guest.{try_wait, poll_child, await_lock, wait_round, wait_until, wait_timeout}

abbrev pub Unlocked : ℕ → World → Type 0
Unlocked h w = (w.handles h).locked ≡ false

-- What the model's actions on one handle never do: lock it, turn the clock back, or hang.
abbrev pub Ends : ℕ → World → Result Message (Option ExitStatusInfo) × World → Type 0
Ends h w (r, v) = (r ≢ stuck) × Unlocked h v × (w.clock ≤ v.clock)

try_wait-Ends : (env : Env) (h : ℕ) (w : World) → Unlocked h w → Ends h w (try_wait env h w)
unfolding try_wait poll_child await_lock
try_wait-Ends env h w u = ground arith

module _ (env : Env) (h deadline : ℕ) (w : World) (again : Action (Option ExitStatusInfo)) where
  sleeping-Ends :
      (v : World)
      → Unlocked h v
      → w.clock ≤ v.clock
      → ((v' : World) → Unlocked h v' → w.clock + 200 ≤ v'.clock → Ends h v' (again v'))
      → Ends h w ((do sleep_ms env 200; again) v)
  unfolding sleep_ms ◌>>=◌
  sleeping-Ends v u later ends = (proof.0, proof.1, omega (arith, proof.2))
    where
      v' : World
      v' = (sleep_ms {E = Message} env 200 v).1

      proof : Ends h v' (again v')
      proof = ends v' u (omega arith)

  round-Ends :
      (r : Result Message (Option ExitStatusInfo)) (v : World)
      → Ends h w (r, v)
      → ((v' : World)
          → w.clock < deadline
          → Unlocked h v'
          → w.clock + 200 ≤ v'.clock
          → Ends h v' (again v'))
      → Ends h w (continue r (wait_round env deadline again) v)
  unfolding wait_round instant_now ◌>>=◌
  round-Ends (ok (some e)) v here ends = ground arith
  round-Ends (ok none) v here ends = elim (Bool-cases (leb deadline v.clock)) [
    | inl late ↦ ground (arith, here.1, here.2)
    | inr early ↦ ground (
      arith,
      sleeping-Ends (tick env v) here.1 (omega (arith, here.2))
          λ v' u l. ends v' (ground (arith, here.2)) u l,
    )
  ]
  round-Ends (err e) v here ends = ground arith
  round-Ends stuck v here ends = ground arith

wait_until-Ends :
    (fuel : ℕ) (env : Env) (h deadline : ℕ) (w : World)
    → Unlocked h w
    → deadline ≤ w.clock + 200 * fuel
    → Ends h w (wait_until (suc fuel) env h deadline w)
unfolding wait_until ◌>>=◌
wait_until-Ends zero env h deadline w u enough =
    round-Ends env h deadline w _ _ _ (try_wait-Ends env h w u) λ v' early. absurd (omega arith)
wait_until-Ends (suc fuel) env h deadline w u enough =
    round-Ends env h deadline w _ _ _ (try_wait-Ends env h w u)
      λ v' early u' later. wait_until-Ends fuel env h deadline v' u' (omega arith)

-- Waiting for a guest with a timeout ends, where no exit watcher holds its lock, whatever the host
-- answers; and it leaves the lock free.
pub wait_timeout-Ends :
    (env : Env) (h timeout : ℕ) (w : World) → Unlocked h w → Ends h w (wait_timeout env h timeout w)
unfolding wait_timeout instant_now ◌>>=◌
wait_timeout-Ends env h timeout w u = (proof.0, proof.1, omega (arith, proof.2))
  where
    v : World
    v = tick env w

    proof : Ends h v (wait_until (suc (suc (timeout / 200))) env h (w.clock + timeout) v)
    proof = wait_until-Ends (suc (timeout / 200)) env h (w.clock + timeout) v u (omega arith)

-- Not so where the exit watcher holds the lock, and the guest never ends: the timeout has no effect.
pub wait_timeout-blocked :
    (env : Env) (h timeout : ℕ) (w : World)
    → (w.handles h).locked ≡ true
    → env.wait_end (suc w.calls) h ≡ never
    → (wait_timeout env h timeout w).0 ≡ stuck
unfolding wait_timeout wait_until try_wait await_lock instant_now ◌>>=◌
wait_timeout-blocked env h timeout w locked lasts = ground arith
