-- ===== src/Tests/Rectangle.antt =====
-- A rectangle on a screen of two pixels and a byte: the second connector is the connected one.
use fundroid.Prelude.{ℕ, refl, true, false, Option, none, some, [], ◌∷◌, ◌==◌}
use fundroid.Exec.{◌>>=◌, attempt}
use fundroid.DrmRect.{Rgb, fill_buffer_with_color}
use fundroid.DrmRect.Display.{Mode, Info, Card, Held, find_connected_connector, draw, fill_display}
use fundroid.DrmRect.Display.Shows.{Shown, fill_display-shows}

abbrev orange : Rgb
orange = record { r = 255; g = 136; b = 0 }

abbrev mode : Mode
mode = record { width = 2; height = 1 }

abbrev connector : ℕ → Option Info
connector h = some (record {
  handle = h;
  connected = h == 8;
  modes = mode ∷ [];
  current_encoder = none;
  encoders = 20 ∷ [];
})

abbrev card : Card
card = record {
  opens = true;
  resource_handles = some (7 ∷ 8 ∷ []);
  get_connector = connector;
  get_encoder = λ e. some (some 30);
  dumb_buffer = λ m. some (1 ∷ 2 ∷ 3 ∷ 4 ∷ 5 ∷ 6 ∷ 7 ∷ 8 ∷ 9 ∷ []);
  adds_framebuffer = true;
  maps = true;
  sets_crtc = true;
  clears_crtc = false;
  destroys_framebuffer = true;
  destroys_dumb_buffer = true;
}

abbrev nothing : Held
nothing = record { buffer = none; framebuffer = false; on_screen = none; pictures = [] }

fill_display-shows_example : Shown card orange nothing (fill_display card orange nothing).1
unfolding fill_display find_connected_connector draw ◌>>=◌ attempt fill_buffer_with_color
fill_display-shows_example = fill_display-shows card orange nothing refl
