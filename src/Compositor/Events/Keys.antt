-- ===== src/Compositor/Events/Keys.antt =====
-- compositor-rs/src/main.rs: the key events that a client gets.
use fundroid.Prelude.{
  ℕ, ◌%◌, ◌^◌, ◌≡◌, refl, sym, append-nil, append_assoc, ◌∙◌, true, false, Option, none, some, List,
  [], ◌∷◌, ◌++◌, ◌==◌, if◌then◌else◌, arith, ap, Option-cases, inl, inr,
}
use fundroid.Compositor.{Resource, Event, key, Compositor}
use fundroid.Compositor.Events.{
  InputEvent, key_event, other_event, send_key, input_event, input_events,
}

-- The messages for a list of input events: one for each press and each release, in their order.
abbrev pub message : Resource → ℕ → InputEvent → List Event
message keyboard time (key_event code value) =
    let ms = time % 2 ^ 32 in
    if value == 0
    then key keyboard ms ms code false ∷ []
    else (if value == 1 then key keyboard ms ms code true ∷ [] else [])
message keyboard time other_event = []

abbrev pub messages : Option Resource → List (ℕ × InputEvent) → List Event
messages none es = []
messages (some keyboard) [] = []
messages (some keyboard) ((time, e) ∷ es) = message keyboard time e ++ messages (some keyboard) es

-- The state after sending.
abbrev pub sending : List Event → Compositor → Compositor
sending ms c = record c { sent = c.sent ++ ms }

input_event-sent :
    (time : ℕ) (e : InputEvent) (keyboard : Resource) (c : Compositor)
    → c.input_state.keyboard_resource ≡ some keyboard
    → input_event time e c ≡ sending (message keyboard time e) c
unfolding input_event send_key
input_event-sent time other_event keyboard c there =
    ap (λ x. record c { sent = x }) (sym (append-nil c.sent))
input_event-sent time (key_event code value) keyboard c there =
    ground (arith, there, append-nil c.sent)

sending_nothing : (c : Compositor) → sending [] c ≡ c
sending_nothing c = ap (λ x. record c { sent = x }) (append-nil c.sent)

input_event-missing :
    (time : ℕ) (e : InputEvent) (c : Compositor)
    → c.input_state.keyboard_resource ≡ none
    → input_event time e c ≡ c
unfolding input_event send_key
input_event-missing time other_event c missing = refl
input_event-missing time (key_event code value) c missing = ground (arith, missing)

input_events-missing :
    (es : List (ℕ × InputEvent)) (c : Compositor)
    → c.input_state.keyboard_resource ≡ none
    → input_events es c ≡ c
unfolding input_events
input_events-missing [] c missing = refl
input_events-missing ((time, e) ∷ es) c missing =
    ap (input_events es) (input_event-missing time e c missing) ∙ input_events-missing es c missing

input_events-there :
    (es : List (ℕ × InputEvent)) (keyboard : Resource) (c : Compositor)
    → c.input_state.keyboard_resource ≡ some keyboard
    → input_events es c ≡ sending (messages (some keyboard) es) c
unfolding input_events
input_events-there [] keyboard c there = sym (sending_nothing c)
input_events-there ((time, e) ∷ es) keyboard c there =
    ap (input_events es) (input_event-sent time e keyboard c there)
    ∙ input_events-there es keyboard (sending (message keyboard time e) c) there
    ∙ ap (λ x. record c { sent = x })
        (append_assoc c.sent (message keyboard time e) (messages (some keyboard) es))

-- Without a keyboard nothing is sent; otherwise the client of the keyboard gets one message for
-- each press and each release of a key, in the order of the events and with the time of its own; repeats and other events are
-- dropped, and nothing else changes.
pub input_events-sent :
    (es : List (ℕ × InputEvent)) (c : Compositor)
    → input_events es c ≡ sending (messages c.input_state.keyboard_resource es) c
input_events-sent es c = elim (Option-cases c.input_state.keyboard_resource) [
  | inl missing ↦ input_events-missing es c missing ∙ sym (sending_nothing c) ∙ rw missing refl
  | inr (keyboard, there) ↦ input_events-there es keyboard c there ∙ rw there refl
]
