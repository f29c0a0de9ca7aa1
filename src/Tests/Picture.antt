-- ===== src/Tests/Picture.antt =====
-- Runs of the client of the compositor on a screen of 300 by 210 pixels.
use fundroid.Prelude.{
  ℕ, zero, suc, ◌+◌, ◌*◌, ◌%◌, Option, ◌^◌, ◌<◌, ◌≡◌, refl, true, false, none, some, List, [], ◌∷◌,
  arith,
}
use fundroid.Prelude.Table
use fundroid.Compositor.{Resource, DrmState, callback_done, Compositor, Kernel}
use fundroid.Compositor.Render.{mul_u16}
use fundroid.Compositor.Handle.{dispatch_clients}
use fundroid.TestClient.{
  gradient, draw_gradient, zeroed, first_requests, width, height, Client, ClientEvent, key_state,
  ClientRounds,
}
use fundroid.TestClient.Shown.{first_requests-shown}

abbrev object : ℕ → Resource
object n = record { client = 1; protocol_id = n }

abbrev screen : DrmState
screen = record { width = 300; height = 210 }

abbrev kernel : Kernel
kernel = record {
  mmap = λ call size fd offset. some (record { pixels = draw_gradient zeroed; readable = 163840 });
  map_dumb_buffer = λ n. true;
  set_crtc = λ n. true;
  dup = λ n fd. some 9;
  now_millis = λ n. 1234;
}

abbrev compositor : Compositor
compositor = record {
  surfaces = Table.empty;
  shm_pools = Table.empty;
  buffers = Table.empty;
  drm_state = some screen;
  input_state = record {
    focused_surface = none;
    pointer_resource = none;
    keyboard_resource = none;
  };
  framebuffer = λ i. 0;
  sent = [];
  closed = [];
  mappings = 0;
  calls = 0;
}

first_requests-shown_example :
    (c' : Compositor) × (dispatch_clients kernel
        (first_requests (object 3) (object 4) (object 5) (object 6) 2)
        compositor
      ≡ some c')
    × ((x y : ℕ)
        → x < width
        → y < height
        → x < 300
        → y * 300 + x < mul_u16 300 210
        → c'.framebuffer (y * 300 + x) ≡ gradient x y)
    × (c'.sent ≡ callback_done (object 6) (1234 % 2 ^ 32) ∷ [])
first_requests-shown_example =
    first_requests-shown kernel compositor screen (object 3) (object 4) (object 5) (object 6) 2 9
      163840 refl refl (omega arith) refl refl refl

abbrev client : Client
client = record {
  app_data = record {
    compositor = none;
    shm = none;
    seat = none;
    keyboard = none;
    surface = none;
    frame_received = true;
    key_received = false;
    keys_pressed = [];
    needs_redraw = false;
  };
  mapping = some (draw_gradient zeroed);
  sent = [];
}

-- A key in the second round.
abbrev events : ℕ → Option (List ClientEvent)
events zero = some []
events (suc n) = some (key_state 30 true ∷ [])

abbrev rounds : ClientRounds
rounds = record { elapsed = λ n. 16 * n; events = events }
