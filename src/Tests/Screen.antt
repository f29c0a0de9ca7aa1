-- ===== src/Tests/Screen.antt =====
-- Runs of the compositor on a screen of 4 by 3 pixels.
use fundroid.Prelude.{
  ℕ, ◌+◌, ◌*◌, ◌/◌, ◌≡◌, refl, true, false, Option, none, some, List, [], ◌∷◌, ◌≢◌, arith, ◌==◌,
}
use fundroid.Prelude.Table
use fundroid.Compositor.{Resource, BufferData, SurfaceData, DrmState, Event, Compositor, Kernel}
use fundroid.Compositor.Render.{copy_pixels, mul_u16}
use fundroid.Compositor.Render.Fits.{Backed}
use fundroid.Compositor.Render.Copied.{copy_pixels-whole}
use fundroid.Compositor.Render.Strided.{copy_pixels-strided}
use fundroid.Compositor.Handle.{known, Request, commit, handle, dispatch_clients}
use fundroid.Compositor.Handle.Commit.{Committed, commit-Committed}
use fundroid.Compositor.Handle.Undrawn.{dispatch_clients-undrawn}
use fundroid.Compositor.Handle.Safe.{SoundBuffers, dispatch_clients-Defined}
use fundroid.Compositor.Handle.Show.{show_buffer}
use fundroid.Compositor.Events.{key_event, input_events, Rounds, event_loop, out_of_fuel}
use fundroid.Compositor.Events.Keys.{sending, input_events-sent}
use fundroid.Compositor.Events.Ends.{event_loop-ends}
use fundroid.Compositor.Setup
use fundroid.Compositor.Setup.{Connector, Drm, Screen, set_up, ok}
use fundroid.Compositor.Setup.First.{Shown, set_up-First}

abbrev screen : DrmState
screen = record { width = 4; height = 3 }

-- Two rows of two pixels.
abbrev small : BufferData
small = record { pool_id = 5; offset = 0; width = 2; height = 2; stride = 8; format = 0 }

abbrev gradient : ℕ → ℕ
gradient i = 100 + i

abbrev black : ℕ → ℕ
black i = 0

-- A pixel more behind each row.
abbrev gapped : BufferData
gapped = record small { stride = 12 }

copy_pixels-strided_example :
    copy_pixels gapped gradient screen black (1 * 4 + 0) ≡ gradient (1 * (12 / 4) + 0)
copy_pixels-strided_example =
    copy_pixels-strided gapped gradient screen black (omega arith) (omega arith) (omega arith)
      (omega arith) 0 1 (omega arith)

copy_pixels-whole_example :
    copy_pixels small gradient screen black (1 * 4 + 1) ≡ gradient (1 * 2 + 1)
unfolding mul_u16
copy_pixels-whole_example =
    copy_pixels-whole small refl (omega arith) 1 1 (omega arith) (omega arith) screen gradient
      (omega arith) (omega arith) black

abbrev kernel : Kernel
kernel = record {
  mmap = λ call size fd offset. some (record { pixels = gradient; readable = 4096 });
  map_dumb_buffer = λ n. true;
  set_crtc = λ n. true;
  dup = λ n fd. some 9;
  now_millis = λ n. 1234;
}

-- A mapping that can be read as far as it goes.
abbrev backed_kernel : Kernel
backed_kernel = record kernel {
  mmap = λ call size fd offset. some (record { pixels = gradient; readable = size });
}

backed : Backed backed_kernel
backed call size fd offset m maps = ground arith

abbrev object : ℕ → Resource
object n = record { client = 1; protocol_id = n }

abbrev surface : SurfaceData
surface = record { buffer_id = none; frame_callback = some (object 8) }

abbrev compositor : Compositor
compositor = record {
  surfaces = Table.insert 3 surface Table.empty;
  shm_pools = Table.empty;
  buffers = Table.empty;
  drm_state = some screen;
  input_state = record {
    focused_surface = none;
    pointer_resource = none;
    keyboard_resource = some (object 7);
  };
  framebuffer = black;
  sent = [];
  closed = [];
  mappings = 0;
  calls = 0;
}

abbrev committed : Compositor
committed = record compositor {
  surfaces = Table.insert 3 (record surface { frame_callback = none }) compositor.surfaces;
  sent = Event.callback_done (object 8) 1234 ∷ [];
  calls = 1;
}

commit_lem : handle kernel (commit (object 3)) compositor ≡ some committed
unfolding handle
commit_lem = refl

commit-Committed_example : Committed kernel 3 compositor committed
commit-Committed_example = commit-Committed kernel (object 3) compositor committed commit_lem

abbrev requests : List Request
requests = show_buffer (object 4) (object 5) (object 6) 2 16 0 2 2 8 (known 1)

dispatch_clients-Defined_example :
    (c' : Compositor) × (dispatch_clients backed_kernel requests compositor ≡ some c')
    × SoundBuffers c'
dispatch_clients-Defined_example =
    dispatch_clients-Defined backed_kernel requests compositor backed (λ id b h. cc)
      (tt, ((omega arith, omega arith), (tt, (tt, tt))))

abbrev wide : DrmState
wide = record { width = 640; height = 480 }

abbrev wide_compositor : Compositor
wide_compositor = record compositor { drm_state = some wide }

drawn :
    (c' : Compositor) × (dispatch_clients backed_kernel requests wide_compositor ≡ some c')
    × SoundBuffers c'
drawn =
    dispatch_clients-Defined backed_kernel requests wide_compositor backed (λ id b h. cc)
      (tt, ((omega arith, omega arith), (tt, (tt, tt))))

dispatch_clients-undrawn_example : drawn.0.framebuffer 50000 ≡ 0
unfolding mul_u16
dispatch_clients-undrawn_example =
    dispatch_clients-undrawn backed_kernel wide 50000 (omega arith) requests wide_compositor drawn.0
      refl drawn.1

input_events-sent_example :
    input_events
      ((50, key_event 30 1) ∷ (51, key_event 30 2) ∷ (52, key_event 30 0) ∷ [])
      compositor
    ≡ sending
        (Event.key (object 7) 50 50 30 true ∷ Event.key (object 7) 52 52 30 false ∷ [])
        compositor
input_events-sent_example =
    input_events-sent ((50, key_event 30 1) ∷ (51, key_event 30 2) ∷ (52, key_event 30 0) ∷ [])
      compositor

abbrev rounds : Rounds
rounds = record {
  elapsed = λ n. 10 * n;
  requests = λ n. commit (object 3) ∷ [];
  flushed = λ n. true;
  events = λ n. (10 * n, key_event 30 1) ∷ [];
}

event_loop-ends_example : event_loop kernel rounds 6001 0 compositor ≢ out_of_fuel
event_loop-ends_example = event_loop-ends kernel rounds compositor (λ n. omega arith)

abbrev connector : ℕ → Option Connector
connector h =
    some (record { handle = h; connected = h == 2; modes = screen ∷ []; current_encoder = some 20 })

abbrev drm : Drm
drm = record {
  open_card = true;
  resource_handles = some (1 ∷ 2 ∷ []);
  get_connector = connector;
  get_connector_again = connector;
  get_encoder = λ e. some (some 30);
  create_dumb_buffer = true;
  add_framebuffer = true;
  map_dumb_buffer = true;
  open_tty = true;
  set_graphics_mode = true;
  set_crtc = true;
  new_display = true;
  bind_socket = true;
}

shown : (s : Screen) × (set_up drm black ≡ ok s)
unfolding set_up Setup.◌>>=◌
shown = (_, refl)

set_up-First_example : Shown drm black shown.0
set_up-First_example = set_up-First drm black shown.0 shown.1
