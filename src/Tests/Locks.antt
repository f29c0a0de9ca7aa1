-- ===== src/Tests/Locks.antt =====
-- Runs of two requests for one instance through the table of locks.
use fundroid.Prelude.{ℕ, ◌≡◌, refl, some, arith}
use fundroid.Protocol.{InstanceId}
use fundroid.Daemon.Locks.{
  lock_instance, inside, System, look_up, acquire, pick, Reach, start, later,
}
use fundroid.Daemon.Locks.Exclusive.{Calm, mutual_exclusion}
use fundroid.Daemon.Locks.Emptied.{Answered, Busy, entry-Busy}
use fundroid.Daemon.Locks.Refines.{Simulated, trace, Reach-Simulated}
use fundroid.Daemon.Locks.Race.{mutual_exclusion-fails}

abbrev seventh : ℕ → InstanceId
seventh j = 7

-- Request 0 is handled while request 1 waits.
contended : (s : System) × Reach seventh s
unfolding lock_instance
contended = (
  _,
  later (later (later start (pick 0 look_up)) (pick 1 look_up)) (pick 0 (acquire {l = 0} refl)),
)

contended-Calm : Calm contended.1
unfolding contended lock_instance
contended-Calm = (((tt, λ j h. cc), λ j h. ground arith), tt)

contended-Answered : Answered contended.1
unfolding contended lock_instance
contended-Answered = (((tt, tt), tt), tt)

contended-inside : contended.0.pc 0 ≡ inside 0
unfolding contended lock_instance
contended-inside = refl

contended-entry : contended.0.locks.table 7 ≡ some 0
unfolding contended lock_instance
contended-entry = refl

mutual_exclusion_example : ◌≡◌ {A = ℕ} 0 0
mutual_exclusion_example =
    mutual_exclusion contended.1 contended-Calm 0 0 0 0 contended-inside contended-inside refl

Reach-Simulated_example : Simulated seventh (trace contended.1) contended.0.pc
Reach-Simulated_example = Reach-Simulated contended.1 contended-Calm

entry-Busy_example : Busy seventh contended.0.pc 7
entry-Busy_example = entry-Busy contended.1 contended-Answered 7 0 contended-entry

mutual_exclusion-fails_example :
    (s : System) × Reach seventh s × (s.pc 1 ≡ inside 0) × (s.pc 2 ≡ inside 1)
mutual_exclusion-fails_example = mutual_exclusion-fails 7
