-- ===== src/Guest.antt =====
-- cuttlefish/cfctl/src/daemon/guest.rs: handles of guest processes, and the registry of handles.

pub mod Untouched
pub mod Finishes
pub mod Timeout
use fundroid.Prelude.{
  ℕ, zero, suc, ◌+◌, ◌/◌, Bool, true, false, ◌&&◌, not, Option, none, some, [], ◌∷◌, leb, ◌==◌,
  if◌then◌else◌, is_some,
}
use fundroid.Prelude.Table
use fundroid.Exec.{Result, ok, err, stuck, hang, pure, ◌>>=◌, ◌>>◌}
use fundroid.Protocol.{Message, plain, formatted, os_error, InstanceId}
use fundroid.Host.{
  ExitStatusInfo, Env, World, GuestHandle, WaitEnd, never, wait_failed, ended, Action, tick,
}
use fundroid.Host.Os.{instant_now, sleep_ms}

abbrev pub is_zero : Option ℕ → Bool
is_zero none = false
is_zero (some n) = n == 0

unfoldable pub success : ExitStatusInfo → Bool
success e = is_zero e.code && not (is_some e.signal)

unfoldable pub describe : ExitStatusInfo → Message
describe e = words e.code e.signal
  where
    words : Option ℕ → Option ℕ → Message
    words (some code) none = formatted "exit code {}" (code ∷ [])
    words none (some sig) = formatted "signal {}" (sig ∷ [])
    words (some code) (some sig) = formatted "exit code {} (signal {})" (code ∷ sig ∷ [])
    words none none = plain "unknown status"

-- `GuestHandle::new`, for the child with this pid.
unfoldable pub new_handle : ℕ → GuestHandle
new_handle pid = record { pid = pid; child = true; exit = none; locked = false }

abbrev pub set_handle : ℕ → GuestHandle → World → World
set_handle h g w = record w { handles = λ j. if j == h then g else w.handles j }

-- The handle after the child was reaped.
abbrev pub reaped : ExitStatusInfo → GuestHandle → GuestHandle
reaped e g = record g { child = false; exit = some e; locked = false }

-- The mutex is held until the watcher's wait ends; the watcher then leaves what it got.
await_lock : WaitEnd → ℕ → World → Result Message (Option ExitStatusInfo) × World
await_lock never h w = (stuck, w)
await_lock wait_failed h w = (ok none, set_handle h (record (w.handles h) { locked = false }) w)
await_lock (ended e) h w = (ok (some e), set_handle h (reaped e (w.handles h)) w)

poll_child : Option ExitStatusInfo → ℕ → World → Result Message (Option ExitStatusInfo) × World
poll_child none h w = (ok none, w)
poll_child (some e) h w = (ok (some e), set_handle h (reaped e (w.handles h)) w)

unfoldable pub try_wait : Env → ℕ → Action (Option ExitStatusInfo)
unfolding await_lock poll_child
try_wait env h w =
    if g.locked
    then await_lock (env.wait_end w.calls h) h (tick env w)
    else if is_some g.exit
    then (ok g.exit, w)
    else if not g.child
    then (ok g.exit, w)
    else if env.fails w.calls
    then (err (os_error w.calls), tick env w)
    else poll_child (env.child_status w.calls h) h (tick env w)
  where
    g : GuestHandle
    g = w.handles h

-- What a round of the loop does with the answer of `try_wait`.
wait_round :
    Env
    → ℕ
    → Action (Option ExitStatusInfo)
    → Option ExitStatusInfo
    → Action (Option ExitStatusInfo)
wait_round env deadline again (some e) = pure (some e)
wait_round env deadline again none = do
  now ← instant_now env
  if leb deadline now then pure none else do sleep_ms env 200; again

-- The loop of `wait_timeout`, until the deadline, in milliseconds.
unfoldable pub wait_until : ℕ → Env → ℕ → ℕ → Action (Option ExitStatusInfo)
unfolding wait_round
wait_until zero env h deadline = hang
wait_until (suc fuel) env h deadline = do
  exit ← try_wait env h
  wait_round env deadline (wait_until fuel env h deadline) exit

-- `wait_timeout`, in milliseconds. A round of the loop sleeps for 200.
unfoldable pub wait_timeout : Env → ℕ → ℕ → Action (Option ExitStatusInfo)
wait_timeout env h timeout = do
  now ← instant_now env
  wait_until (suc (suc (timeout / 200))) env h (now + timeout)

-- `kill(pid, signal)`; that the process is gone is no error.
unfoldable pub signal : Env → ℕ → ℕ → Action (Unit {0})
signal env h sig w = (
  if env.fails w.calls && not (env.no_such_process w.calls) then err (os_error w.calls) else ok tt,
  tick env w,
)

unfoldable pub insert : InstanceId → ℕ → World → World
insert id h w = record w { registry = Table.insert id h w.registry }

unfoldable pub get : InstanceId → World → Option ℕ
get id w = w.registry id

unfoldable pub contains : InstanceId → World → Bool
contains id w = is_some (w.registry id)

abbrev pub points_to : Option ℕ → ℕ → Bool
points_to none h = false
points_to (some k) h = k == h

-- Removes the entry if it is this very handle (`Arc::ptr_eq`).
unfoldable pub remove_if_handle : InstanceId → ℕ → World → World
remove_if_handle id h w =
    if points_to (w.registry id) h then record w { registry = Table.remove id w.registry } else w
