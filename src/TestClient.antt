-- ===== src/TestClient.antt =====
-- compositor-rs/src/bin/test-client.rs: the state of the client, what it does at each event, the
-- pixels that it draws and the requests that it sends. Its `display` and its objects are the
-- library's: an object that a request makes is named by the event that leads to it.
pub mod Gradient
pub mod Interactive
pub mod Shown
use Prim.Native.Nat.{bit_or}
use fundroid.Prelude.{
  ℕ, zero, suc, ◌+◌, ◌-◌, ◌*◌, ◌/◌, ◌%◌, ◌^◌, ◌<◌, Bool, true, false, Option, none, some, List, [],
  ◌∷◌, ◌++◌, ltb, ◌==◌, if◌then◌else◌,
}
use fundroid.Compositor.{Resource}
use fundroid.Compositor.Handle.{
  Request, known, argb8888, attach, commit, frame, create_pool, create_buffer, other, get_keyboard,
  destroy_buffer,
}

pub data Interface : Type 0 where
  wl_compositor : Interface
  wl_shm : Interface
  wl_seat : Interface
  unknown_interface : Interface

pub data ClientEvent : Type 0 where
  global : Interface → (bound : Resource) → ClientEvent
  release : (buffer : Resource) → ClientEvent
  done : (callback_data : ℕ) → ClientEvent
  seat_capabilities : (keyboard : Resource) → ClientEvent
  key_state : (key : ℕ) (pressed : Bool) → ClientEvent
  logged : ClientEvent

pub record AppData : Type 0 where
  pub compositor : Option Resource
  pub shm : Option Resource
  pub seat : Option Resource
  pub keyboard : Option Resource
  pub surface : Option Resource
  pub frame_received : Bool
  pub key_received : Bool
  pub keys_pressed : List ℕ
  pub needs_redraw : Bool

unfoldable pub bind_global : Interface → Resource → AppData → AppData
bind_global wl_compositor bound a = record a { compositor = some bound }
bind_global wl_shm bound a = record a { shm = some bound }
bind_global wl_seat bound a = record a { seat = some bound }
bind_global unknown_interface bound a = a

unfoldable pub count : List ℕ → ℕ
count [] = 0
count (x ∷ xs) = suc (count xs)

-- `remove(0)`.
unfoldable pub remove_first : List ℕ → List ℕ
remove_first [] = []
remove_first (x ∷ xs) = xs

-- `push`, and only the last 20 keys are kept.
unfoldable pub push_key : ℕ → List ℕ → List ℕ
push_key key keys =
    let keys' = keys ++ key ∷ [] in if ltb 20 (count keys') then remove_first keys' else keys'

unfoldable pub press_key : ℕ → AppData → AppData
press_key key a = record a { keys_pressed = push_key key a.keys_pressed; needs_redraw = true }

-- The state behind an event.
unfoldable pub event : ClientEvent → AppData → AppData
unfolding bind_global press_key
event (global interface bound) a = bind_global interface bound a
event (release buffer) a = a
event (done callback_data) a = record a { frame_received = true }
event (seat_capabilities keyboard) a = record a { keyboard = some keyboard }
event (key_state key pressed) a =
    let a' = record a { key_received = true } in if pressed then press_key key a' else a'
event logged a = a

-- The requests that an event leads to.
unfoldable pub answer : ClientEvent → List Request
answer (release buffer) = destroy_buffer buffer ∷ []
answer (seat_capabilities keyboard) = get_keyboard keyboard ∷ []
answer (global interface bound) = []
answer (done callback_data) = []
answer (key_state key pressed) = []
answer logged = []

abbrev pub width : ℕ
width = 200

abbrev pub height : ℕ
height = 200

abbrev pub stride : ℕ
stride = 800

-- `0xFF000000 | (r << 16) | b`.
unfoldable pub gradient : ℕ → ℕ → ℕ
gradient x y = bit_or (bit_or 0xff000000 (x * 255 / width * 2 ^ 16 % 2 ^ 32)) (y * 255 / height)

unfoldable pub store : ℕ → ℕ → (ℕ → ℕ) → ℕ → ℕ
store i pixel pixels j = if j == i then pixel else pixels j

-- The inner loop, over `x` below the first argument, and the outer one, over `y`.
unfoldable pub draw_row : ℕ → ℕ → (ℕ → ℕ) → ℕ → ℕ
draw_row zero y pixels = pixels
draw_row (suc x) y pixels = store (y * width + x) (gradient x y) (draw_row x y pixels)

unfoldable pub draw_rows : ℕ → (ℕ → ℕ) → ℕ → ℕ
draw_rows zero pixels = pixels
draw_rows (suc y) pixels = draw_row width y (draw_rows y pixels)

unfoldable pub draw_gradient : (ℕ → ℕ) → ℕ → ℕ
draw_gradient pixels = draw_rows height pixels

-- The file before anything is drawn into it.
abbrev pub zeroed : ℕ → ℕ
zeroed i = 0

-- A colour for a key: u32, the products wrap around.
unfoldable pub color : ℕ → ℕ
color key =
    let r = key * 123 % 2 ^ 32 % 200 + 55 in
    let g = key * 456 % 2 ^ 32 % 200 + 55 in
    let b_val = key * 789 % 2 ^ 32 % 200 + 55 in
    bit_or (bit_or (bit_or 0xff000000 (r * 2 ^ 16 % 2 ^ 32)) (g * 2 ^ 8 % 2 ^ 32)) b_val

abbrev pub block_size : ℕ
block_size = 15

-- A pixel of a block, if it lies in the window.
unfoldable pub draw_point : ℕ → ℕ → ℕ → (ℕ → ℕ) → ℕ → ℕ
draw_point c px py pixels =
    if ltb px width
    then (if ltb py height then store (py * width + px) c pixels else pixels)
    else pixels

unfoldable pub block_row : ℕ → ℕ → ℕ → ℕ → (ℕ → ℕ) → ℕ → ℕ
block_row c block_x py zero pixels = pixels
block_row c block_x py (suc dx) pixels =
    draw_point c (block_x + dx) py (block_row c block_x py dx pixels)

unfoldable pub block_rows : ℕ → ℕ → ℕ → ℕ → (ℕ → ℕ) → ℕ → ℕ
block_rows c block_x block_y zero pixels = pixels
block_rows c block_x block_y (suc dy) pixels =
    block_row c block_x (block_y + dy) block_size (block_rows c block_x block_y dy pixels)

-- The blocks of the keys from index `i` on.
unfoldable pub draw_blocks : ℕ → List ℕ → (ℕ → ℕ) → ℕ → ℕ
draw_blocks i [] pixels = pixels
draw_blocks i (key ∷ keys) pixels =
    draw_blocks (suc i) keys
      (block_rows (color key) (10 + i * (block_size + 3)) (height - 30) block_size pixels)

-- The pixels of a redraw: `pixel_slice` is the memory that `main` mapped, or nothing after `munmap`.
-- Storing into memory that is not mapped is undefined behaviour.
unfoldable pub redraw : AppData → Option (ℕ → ℕ) → Option (ℕ → ℕ)
redraw a none = none
redraw a (some pixels) = some (draw_blocks 0 a.keys_pressed (draw_gradient pixels))

-- What `main` asks for before it waits for the frame: `damage` is ignored by the compositor.
unfoldable pub first_requests : (surface pool buffer callback : Resource) (fd : ℕ) → List Request
first_requests surface pool buffer callback fd =
    create_pool pool fd (stride * height)
    ∷ create_buffer pool buffer 0 width height stride (known argb8888)
    ∷ attach surface (some buffer)
    ∷ other
    ∷ frame surface callback
    ∷ commit surface
    ∷ []

-- The client in `main`: its data, the mapping of the buffer, and the requests that it sent.
pub record Client : Type 0 where
  pub app_data : AppData
  pub mapping : Option (ℕ → ℕ)
  pub sent : List Request

-- `munmap`, after the wait for the frame.
unfoldable pub unmap : Client → Client
unmap c = record c { mapping = none }

-- `dispatch_pending` with these events.
unfoldable pub dispatch_pending : List ClientEvent → Client → Client
dispatch_pending [] c = c
dispatch_pending (e ∷ es) c =
    dispatch_pending es (record c { app_data = event e c.app_data; sent = c.sent ++ answer e })

submit : (surface buffer : Resource) → Client → Option (ℕ → ℕ) → Option Client
submit surface buffer c none = none
submit surface buffer c (some pixels) = some (record c {
  app_data = record c.app_data { needs_redraw = false };
  mapping = some pixels;
  sent = c.sent ++ attach surface (some buffer) ∷ other ∷ commit surface ∷ [];
})

-- `if app_data.needs_redraw`; `none` is undefined behaviour.
unfoldable pub update : (surface buffer : Resource) → Client → Option Client
unfolding submit
update surface buffer c =
    if c.app_data.needs_redraw
    then submit surface buffer c (redraw c.app_data c.mapping)
    else some c

-- What happens in the rounds of the interactive loop: the time at the start of each, and the events,
-- or an error of `dispatch_pending`.
pub record ClientRounds : Type 0 where
  pub elapsed : ℕ → ℕ
  pub events : ℕ → Option (List ClientEvent)

pub data ClientEnd : Type 0 where
  complete : Client → ClientEnd
  timeout : ClientEnd  -- no frame callback came
  dispatch_failed : ClientEnd
  undefined : ClientEnd
  out_of_fuel : ClientEnd

-- The interactive loop of 30 seconds.
unfoldable pub interactive_loop :
    (surface buffer : Resource) → ClientRounds → ℕ → ℕ → Client → ClientEnd
interactive_loop surface buffer r zero n c = out_of_fuel
interactive_loop surface buffer r (suc fuel) n c =
    let next = λ (c' : Client). interactive_loop surface buffer r fuel (n + 1) c' in
    if ltb (r.elapsed n) (30 * 1000)
    then elim (r.events n) [
      | none ↦ dispatch_failed
      | some es ↦ elim (update surface buffer (dispatch_pending es c)) [
        | none ↦ undefined
        | some c' ↦ next c'
      ]
    ]
    else complete c

-- What `main` does after the wait for the frame.
unfoldable pub after_wait : (surface buffer : Resource) → ClientRounds → ℕ → Client → ClientEnd
unfolding unmap
after_wait surface buffer r fuel c =
    if c.app_data.frame_received
    then interactive_loop surface buffer r fuel 0 (unmap c)
    else timeout
