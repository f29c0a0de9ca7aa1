-- ===== src/Host/Os.antt =====
-- Clocks, sleeping, and running other programs.
use fundroid.Prelude.{ℕ, ◌+◌, ◌∷◌, Option, none, some}
use fundroid.Exec.{Exec, Result, ok, err}
use fundroid.Protocol.{Message, os_error}
use fundroid.Host.{Env, World, Action, Command, Output, Task, tick}

abbrev pub or_os_error {ℓ} : {A : Type ℓ} → ℕ → Option A → Result Message A
or_os_error n none = err (os_error n)
or_os_error n (some a) = ok a

-- util.rs: `epoch_secs`, the wall clock, which may stand before the epoch.
unfoldable pub epoch_secs : Env → Action ℕ
epoch_secs env w = (or_os_error w.calls (env.epoch w.calls), tick env w)

-- `Instant::now()`.
unfoldable pub instant_now : {E : Type 0} → Env → Exec World E ℕ
instant_now env w = (ok w.clock, tick env w)

-- `thread::sleep`: at least the time that is asked for passes.
unfoldable pub sleep_ms : {E : Type 0} → Env → ℕ → Exec World E (Unit {0})
sleep_ms env ms w = (ok tt, record (tick env w) { clock = w.clock + ms + env.elapsed w.calls })

-- `Command::output()` and `Command::status()`.
unfoldable pub run : Env → Command → Action Output
run env c w = (or_os_error w.calls (env.output w.calls c), tick env w)

-- `thread::spawn`.
unfoldable pub spawn : {E : Type 0} → Task → Exec World E (Unit {0})
spawn t w = (ok tt, record w { background = t ∷ w.background })
