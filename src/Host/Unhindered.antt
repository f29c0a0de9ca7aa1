-- ===== src/Host/Unhindered.antt =====
-- The end of the calls of the host, and the time that has come after them.
use fundroid.Prelude.{ℕ, ◌+◌, ◌<◌, leb, Bool-cases, inl, inr, if◌then◌else◌, ◌≤◌, ◌≡◌, false, arith}
use fundroid.Exec.{Exec, ◌>>=◌, ◌>>◌}
use fundroid.Exec.Finishes.{Finishes}
use fundroid.Files.{Slot, Contents}
use fundroid.Host.{Env, World, Command, Task, tick, attempt_call}
use fundroid.Host.Fs
use fundroid.Host.Os

-- No lock of a guest is held, and the clock shows `since` or later.
pub record Unhindered (since : ℕ) (v : World) : Type 0 where
  pub unlocked : (h : ℕ) → (v.handles h).locked ≡ false
  pub later : since ≤ v.clock

module _ (env : Env) (since : ℕ) where
  pub attempt_call-Finishes : Finishes (Unhindered since) (attempt_call env)
  attempt_call-Finishes = record {
    run = λ v u. (ground arith, record { unlocked = u.unlocked; later = omega (arith, u.later) });
  }

  pub exists-Finishes :
      {E : Type 0} (s : Slot) (j : ℕ) → Finishes (Unhindered since) (Fs.exists {E = E} env s j)
  unfolding Fs.exists
  exists-Finishes s j = record {
    run = λ v u. ((λ h. cc), record { unlocked = u.unlocked; later = omega (arith, u.later) });
  }

  pub epoch_secs-Finishes : Finishes (Unhindered since) (Os.epoch_secs env)
  unfolding Os.epoch_secs
  epoch_secs-Finishes = record {
    run = λ v u. (ground arith, record { unlocked = u.unlocked; later = omega (arith, u.later) });
  }

  pub instant_now-Finishes : {E : Type 0} → Finishes (Unhindered since) (Os.instant_now {E = E} env)
  unfolding Os.instant_now
  instant_now-Finishes = record {
    run = λ v u. ((λ h. cc), record { unlocked = u.unlocked; later = omega (arith, u.later) });
  }

  pub sleep_ms-Finishes :
      {E : Type 0} (ms : ℕ) → Finishes (Unhindered since) (Os.sleep_ms {E = E} env ms)
  unfolding Os.sleep_ms
  sleep_ms-Finishes ms = record {
    run = λ v u. ((λ h. cc), record { unlocked = u.unlocked; later = omega (arith, u.later) });
  }

  pub run-Finishes : (c : Command) → Finishes (Unhindered since) (Os.run env c)
  unfolding Os.run
  run-Finishes c = record {
    run = λ v u. (ground arith, record { unlocked = u.unlocked; later = omega (arith, u.later) });
  }

  pub read-Finishes : (s : Slot) (j : ℕ) → Finishes (Unhindered since) (Fs.read env s j)
  unfolding Fs.read
  read-Finishes s j = record {
    run = λ v u. (
      ground arith,
      record { unlocked = λ h. ground (arith, u.unlocked h); later = ground (arith, u.later) },
    );
  }

  pub create_dir_all-Finishes :
      (j : ℕ) (s : Slot) → Finishes (Unhindered since) (Fs.create_dir_all env s j)
  unfolding Fs.create_dir_all
  create_dir_all-Finishes j s = record {
    run = λ v u. (
      ground arith,
      record { unlocked = λ h. ground (arith, u.unlocked h); later = ground (arith, u.later) },
    );
  }

  pub write-Finishes :
      (j : ℕ) (s : Slot) (c : Contents) → Finishes (Unhindered since) (Fs.write env s j c)
  unfolding Fs.write
  write-Finishes j s c = record {
    run = λ v u. (
      ground arith,
      record { unlocked = λ h. ground (arith, u.unlocked h); later = ground (arith, u.later) },
    );
  }

  pub rename-Finishes :
      (j : ℕ) (from to : Slot) → Finishes (Unhindered since) (Fs.rename env from to j)
  unfolding Fs.rename
  rename-Finishes j from to = record {
    run = λ v u. (
      ground arith,
      record { unlocked = λ h. ground (arith, u.unlocked h); later = ground (arith, u.later) },
    );
  }

weaken : (since now : ℕ) (v : World) → since ≤ now → Unhindered now v → Unhindered since v
weaken since now v h u = record { unlocked = u.unlocked; later = omega (arith, h, u.later) }

module _ {E A : Type 0} (env : Env) (since : ℕ) where
  -- What follows a look at the clock may start from that time.
  pub Finishes-now :
      (f : ℕ → Exec World E A)
      → ((now : ℕ) → since ≤ now → Finishes (Unhindered now) (f now))
      → Finishes (Unhindered since) (Os.instant_now env >>= f)
  unfolding Os.instant_now ◌>>=◌
  Finishes-now f k = record {
    run = λ v u.
        let (ends, after) =
          (k v.clock u.later).run (tick env v)
            (record { unlocked = u.unlocked; later = omega arith }) in
        (ends, weaken since v.clock _ u.later after);
  }

  -- What follows a pause starts later.
  pub Finishes-sleep :
      (pause : ℕ) (m : Exec World E A)
      → Finishes (Unhindered (since + pause)) m
      → Finishes (Unhindered since) (Os.sleep_ms env pause >> m)
  unfolding Os.sleep_ms ◌>>=◌
  Finishes-sleep pause m k = record {
    run = λ v u.
        let (ends, after) =
          k.run (Os.sleep_ms {E = E} env pause v).1
            (record { unlocked = u.unlocked; later = omega (arith, u.later) }) in
        (ends, weaken since (since + pause) _ (omega arith) after);
  }

-- A round of a loop that polls: the deadline ends it, or it pauses and goes on.
pub Finishes-retry :
    {E A : Type 0} (env : Env) (since deadline pause : ℕ) (give_up again : Exec World E A)
    → ((now : ℕ) → since ≤ now → Finishes (Unhindered now) give_up)
    → ((now : ℕ) → since ≤ now → now < deadline → Finishes (Unhindered (now + pause)) again)
    → Finishes (Unhindered since) (do
      now ← Os.instant_now env
      if leb deadline now then give_up else (do Os.sleep_ms env pause; again))
Finishes-retry env since deadline pause give_up again up on = Finishes-now env since _ λ now later.
    elim (Bool-cases (leb deadline now)) [
      | inl late ↦ rw late (up now later)
      | inr early ↦ rw early (Finishes-sleep env now pause again (on now later (ground arith)))
    ]

module _ (env : Env) (since : ℕ) where
  pub remove_file-Finishes :
      (j : ℕ) (s : Slot) → Finishes (Unhindered since) (Fs.remove_file env s j)
  unfolding Fs.remove_file
  remove_file-Finishes j s = record {
    run = λ v u. (
      ground arith,
      record { unlocked = λ h. ground (arith, u.unlocked h); later = ground (arith, u.later) },
    );
  }

  pub remove_root-Finishes : (j : ℕ) → Finishes (Unhindered since) (Fs.remove_root env j)
  unfolding Fs.remove_root
  remove_root-Finishes j = record {
    run = λ v u. (
      ground arith,
      record { unlocked = λ h. ground (arith, u.unlocked h); later = ground (arith, u.later) },
    );
  }

module _ (since : ℕ) where
  pub spawn-Finishes : {E : Type 0} (t : Task) → Finishes (Unhindered since) (Os.spawn {E = E} t)
  unfolding Os.spawn
  spawn-Finishes t = record {
    run = λ v u. ((λ h. cc), record { unlocked = u.unlocked; later = u.later });
  }
