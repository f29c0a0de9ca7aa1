-- ===== src/Guest/Untouched.antt =====
-- cuttlefish/cfctl/src/daemon/guest.rs: handles and the registry, for other instances.
use fundroid.Prelude.{ℕ, zero, suc, ◌≢◌, refl, arith, Option, none, some}
use fundroid.Exec.Keeps.{Keeps, Keeps-bind, keeps_rules}
use fundroid.Host.{Env, World, Action, ExitStatusInfo, WaitEnd, never, wait_failed, ended}
use fundroid.Host.Untouched.{Untouched, Untouched-same, instant_now-Untouched, sleep_ms-Untouched}
use fundroid.Guest.{
  await_lock, poll_child, try_wait, wait_round, wait_until, wait_timeout, signal, insert,
  remove_if_handle,
}

module _ (env : Env) (i : ℕ) (w : World) where
  await_lock-Untouched :
      (e : WaitEnd) (h : ℕ) (v : World) → Untouched i w v → Untouched i w (await_lock e h v).1
  unfolding await_lock
  await_lock-Untouched never h v u = u
  await_lock-Untouched wait_failed h v u = Untouched-same _ u refl refl refl
  await_lock-Untouched (ended e) h v u = Untouched-same _ u refl refl refl

  poll_child-Untouched :
      (e : Option ExitStatusInfo) (h : ℕ) (v : World)
      → Untouched i w v
      → Untouched i w (poll_child e h v).1
  unfolding poll_child
  poll_child-Untouched none h v u = u
  poll_child-Untouched (some e) h v u = Untouched-same _ u refl refl refl

  pub try_wait-Untouched : (h : ℕ) → Keeps (Untouched i w) (try_wait env h)
  unfolding try_wait
  try_wait-Untouched h = record {
    run = λ v u. record {
      disk_at = λ t. ground (arith, u.disk_at t);
      cache_at = ground (arith, u.cache_at);
      registry_at = ground (arith, u.registry_at);
    };
  }

  wait_round-Untouched :
      (deadline : ℕ) (again : Action (Option ExitStatusInfo)) (e : Option ExitStatusInfo)
      → Keeps (Untouched i w) again
      → Keeps (Untouched i w) (wait_round env deadline again e)
  unfolding wait_round
  wait_round-Untouched deadline again (some e) k = search keeps_rules
  wait_round-Untouched deadline again none k =
      search (keeps_rules, instant_now-Untouched, sleep_ms-Untouched) depth 9

  pub wait_until-Untouched :
      (fuel h deadline : ℕ) → Keeps (Untouched i w) (wait_until fuel env h deadline)
  unfolding wait_until
  wait_until-Untouched zero h deadline = search keeps_rules
  wait_until-Untouched (suc fuel) h deadline =
      Keeps-bind _ _ (try_wait-Untouched h)
        λ e. wait_round-Untouched deadline _ e (wait_until-Untouched fuel h deadline)

  pub wait_timeout-Untouched : (h timeout : ℕ) → Keeps (Untouched i w) (wait_timeout env h timeout)
  unfolding wait_timeout
  wait_timeout-Untouched h timeout =
      search (keeps_rules, instant_now-Untouched, wait_until-Untouched)

  pub signal-Untouched : (h sig : ℕ) → Keeps (Untouched i w) (signal env h sig)
  unfolding signal
  signal-Untouched h sig = record { run = λ v u. Untouched-same _ u refl refl refl }

module _ (i j : ℕ) (other : i ≢ j) (w : World) where
  pub insert-Untouched : (h : ℕ) (v : World) → Untouched i w v → Untouched i w (insert j h v)
  unfolding insert
  insert-Untouched h v u = record {
    disk_at = u.disk_at;
    cache_at = u.cache_at;
    registry_at = ground (arith, u.registry_at);
  }

  pub remove_if_handle-Untouched :
      (h : ℕ) (v : World) → Untouched i w v → Untouched i w (remove_if_handle j h v)
  unfolding remove_if_handle
  remove_if_handle-Untouched h v u = record {
    disk_at = λ t. ground (arith, u.disk_at t);
    cache_at = ground (arith, u.cache_at);
    registry_at = ground (arith, u.registry_at);
  }
