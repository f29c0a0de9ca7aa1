-- ===== src/Guest/Finishes.antt =====
-- cuttlefish/cfctl/src/daemon/guest.rs: the end of operations on handles.
use fundroid.Prelude.{ℕ, zero, suc, ◌≡◌, false, arith, Option, none, some}
use fundroid.Exec.Keeps.{Keeps, Keeps-bind, keeps_rules}
use fundroid.Exec.Finishes.{Finishes}
use fundroid.Host.{Env, World, Action, ExitStatusInfo}
use fundroid.Host.Os
use fundroid.Host.Unhindered.{Unhindered}
use fundroid.Guest.{
  await_lock, poll_child, try_wait, wait_round, wait_until, wait_timeout, signal, remove_if_handle,
}
use fundroid.Guest.Timeout.{wait_timeout-Ends}

abbrev AllUnlocked : World → Type 0
AllUnlocked v = (h : ℕ) → (v.handles h).locked ≡ false

module _ (env : Env) where
  try_wait-AllUnlocked : (h : ℕ) → Keeps AllUnlocked (try_wait env h)
  unfolding try_wait poll_child await_lock
  try_wait-AllUnlocked h = record { run = λ v u k. ground (arith, u h, u k) }

  instant_now-AllUnlocked : {E : Type 0} → Keeps AllUnlocked (Os.instant_now {E = E} env)
  unfolding Os.instant_now
  instant_now-AllUnlocked = record { run = λ v u. u }

  sleep_ms-AllUnlocked : {E : Type 0} (ms : ℕ) → Keeps AllUnlocked (Os.sleep_ms {E = E} env ms)
  unfolding Os.sleep_ms
  sleep_ms-AllUnlocked ms = record { run = λ v u. u }

  wait_round-AllUnlocked :
      (deadline : ℕ) (again : Action (Option ExitStatusInfo)) (e : Option ExitStatusInfo)
      → Keeps AllUnlocked again
      → Keeps AllUnlocked (wait_round env deadline again e)
  unfolding wait_round
  wait_round-AllUnlocked deadline again (some e) k = search keeps_rules
  wait_round-AllUnlocked deadline again none k =
      search (keeps_rules, instant_now-AllUnlocked, sleep_ms-AllUnlocked) depth 9

  wait_until-AllUnlocked :
      (fuel h deadline : ℕ) → Keeps AllUnlocked (wait_until fuel env h deadline)
  unfolding wait_until
  wait_until-AllUnlocked zero h deadline = search keeps_rules
  wait_until-AllUnlocked (suc fuel) h deadline =
      Keeps-bind _ _ (try_wait-AllUnlocked h)
        λ e. wait_round-AllUnlocked deadline _ e (wait_until-AllUnlocked fuel h deadline)

  wait_timeout-AllUnlocked : (h timeout : ℕ) → Keeps AllUnlocked (wait_timeout env h timeout)
  unfolding wait_timeout
  wait_timeout-AllUnlocked h timeout =
      search (keeps_rules, instant_now-AllUnlocked, wait_until-AllUnlocked)

module _ (env : Env) (since : ℕ) where
  pub try_wait-Finishes : (h : ℕ) → Finishes (Unhindered since) (try_wait env h)
  unfolding try_wait poll_child await_lock
  try_wait-Finishes h = record {
    run = λ v u. (
      ground (arith, u.unlocked h),
      record {
        unlocked = (try_wait-AllUnlocked env h).run v u.unlocked;
        later = ground (arith, u.later, u.unlocked h);
      },
    );
  }

  pub wait_timeout-Finishes :
      (h timeout : ℕ) → Finishes (Unhindered since) (wait_timeout env h timeout)
  wait_timeout-Finishes h timeout = record {
    run = λ v u.
        let (ends, unlocked, later) = wait_timeout-Ends env h timeout v (u.unlocked h) in
        (
          ends,
          record {
            unlocked = (wait_timeout-AllUnlocked env h timeout).run v u.unlocked;
            later = omega (arith, later, u.later);
          },
        );
  }

  pub signal-Finishes : (h sig : ℕ) → Finishes (Unhindered since) (signal env h sig)
  unfolding signal
  signal-Finishes h sig = record {
    run = λ v u. (ground arith, record { unlocked = u.unlocked; later = omega (arith, u.later) });
  }

module _ (since : ℕ) where
  pub remove_if_handle-Finishes :
      (j h : ℕ) (v : World) → Unhindered since v → Unhindered since (remove_if_handle j h v)
  unfolding remove_if_handle
  remove_if_handle-Finishes j h v u = record {
    unlocked = λ k. ground (arith, u.unlocked k);
    later = ground (arith, u.later);
  }
