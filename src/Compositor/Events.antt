-- ===== src/Compositor/Events.antt =====
-- compositor-rs/src/main.rs: the keys that `main` passes on to the client with the keyboard, and the
-- loop of 60 seconds.
pub mod Keys
pub mod Ends
use fundroid.Prelude.{
  ℕ, zero, suc, ◌+◌, ◌*◌, ◌%◌, ◌^◌, Bool, true, false, ◌||◌, Option, none, some, List, [], ◌∷◌,
  ◌++◌, ltb, ◌==◌, if◌then◌else◌,
}
use fundroid.Compositor.{Resource, Event, key, Compositor, Kernel}
use fundroid.Compositor.Handle.{Request, dispatch_clients}

-- An event of an input device: a key with its code and value, or anything else.
pub data InputEvent : Type 0 where
  key_event : (code value : ℕ) → InputEvent
  other_event : InputEvent

-- `start.elapsed()` in milliseconds, as a u32; it is the serial too.
pub send_key : ℕ → ℕ → Bool → Option Resource → Compositor → Compositor
send_key time code pressed none c = c
send_key time code pressed (some keyboard) c =
    let ms = time % 2 ^ 32 in record c { sent = c.sent ++ key keyboard ms ms code pressed ∷ [] }

-- The values 0 and 1 are a release and a press; 2, a repeat, is dropped.
unfoldable pub input_event : ℕ → InputEvent → Compositor → Compositor
unfolding send_key
input_event time (key_event code value) c =
    if value == 1 || value == 0
    then send_key time code (value == 1) c.input_state.keyboard_resource c
    else c
input_event time other_event c = c

-- Each event has the time at which it is handled.
unfoldable pub input_events : List (ℕ × InputEvent) → Compositor → Compositor
unfolding input_event
input_events [] c = c
input_events ((time, e) ∷ es) c = input_events es (input_event time e c)

-- What happens in the rounds of the loop: the time at the start of each, the requests that were
-- received, whether `flush_clients` succeeds, and the events of the devices with their times. A new connection changes nothing here.
pub record Rounds : Type 0 where
  pub elapsed : ℕ → ℕ
  pub requests : ℕ → List Request
  pub flushed : ℕ → Bool
  pub events : ℕ → List (ℕ × InputEvent)

pub data LoopEnd : Type 0 where
  finished : Compositor → LoopEnd  -- the console is restored
  flush_failed : Compositor → LoopEnd  -- `main` returns the error, in graphics mode
  crashed : LoopEnd
  out_of_fuel : LoopEnd

unfoldable pub round : Kernel → Rounds → ℕ → Compositor → Option Compositor
unfolding input_events
round k r n c = elim (dispatch_clients k (r.requests n) c) [
  | none ↦ none
  | some c' ↦ some (if r.flushed n then input_events (r.events n) c' else c')
]

abbrev duration : ℕ
duration = 60 * 1000

unfoldable pub event_loop : Kernel → Rounds → ℕ → ℕ → Compositor → LoopEnd
unfolding round
event_loop k r zero n c = out_of_fuel
event_loop k r (suc fuel) n c =
    let next = λ (c' : Compositor). event_loop k r fuel (n + 1) c' in
    if ltb (r.elapsed n) duration
    then elim (round k r n c) [
      | none ↦ crashed
      | some c' ↦ if r.flushed n then next c' else flush_failed c'
    ]
    else finished c
