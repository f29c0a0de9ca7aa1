-- ===== src/DrmRect/Display.antt =====
-- rust/drm_rect/src/lib.rs: `fill_display`. What the drm crate answers is a parameter.
pub mod Shows
use fundroid.Prelude.{
  ℕ, Bool, true, false, ◌&&◌, not, Option, none, some, List, [], ◌∷◌, ◌++◌, is_empty, if◌then◌else◌,
}
use fundroid.Exec.{Exec, ok, err, pure, fail, modify, attempt, ◌>>=◌, ◌>>◌}
use fundroid.DrmRect.{Rgb, fill_buffer_with_color}

pub record Mode : Type 0 where
  pub width : ℕ
  pub height : ℕ

-- `connector::Info`.
pub record Info : Type 0 where
  pub handle : ℕ
  pub connected : Bool
  pub modes : List Mode
  pub current_encoder : Option ℕ
  pub encoders : List ℕ

pub data Failure : Type 0 where
  open_failed : Failure
  no_resources : Failure
  query_failed : (connector : ℕ) → Failure
  no_connector : Failure
  no_modes : Failure
  no_encoder : Failure
  encoder_failed : Failure
  no_crtc : Failure
  no_dumb_buffer : Failure
  no_framebuffer : Failure
  map_failed : Failure
  set_failed : Failure
  clear_failed : Failure
  framebuffer_kept : Failure
  dumb_buffer_kept : Failure

-- The answers of the device; `dumb_buffer` has the bytes of a new buffer.
pub record Card : Type 0 where
  pub opens : Bool
  pub resource_handles : Option (List ℕ)
  pub get_connector : ℕ → Option Info
  pub get_encoder : ℕ → Option (Option ℕ)
  pub dumb_buffer : Mode → Option (List ℕ)
  pub adds_framebuffer : Bool
  pub maps : Bool
  pub sets_crtc : Bool
  pub clears_crtc : Bool
  pub destroys_framebuffer : Bool
  pub destroys_dumb_buffer : Bool

-- A picture that was put on a screen: the CRTC, the connector, the mode and the bytes.
pub record Picture : Type 0 where
  pub crtc : ℕ
  pub connector : ℕ
  pub mode : Mode
  pub bytes : List ℕ

-- The buffer and the framebuffer that are held, what is on the screen, and what was put on it.
pub record Held : Type 0 where
  pub buffer : Option (List ℕ)
  pub framebuffer : Bool
  pub on_screen : Option Picture
  pub pictures : List Picture

abbrev pub Drawing : Type 0 → Type 0
Drawing = Exec Held Failure

abbrev pub check : Bool → Failure → Drawing (Unit {0})
check b e = if b then pure tt else fail e

abbrev pub need : {A : Type 0} → Option A → Failure → Drawing A
need none e = fail e
need (some a) e = pure a

abbrev pub first : {A : Type 0} → List A → Option A
first [] = none
first (x ∷ xs) = some x

abbrev pub or_else : Option ℕ → Option ℕ → Option ℕ
or_else none o = o
or_else (some x) o = some x

abbrev pub usable : Info → Bool
usable info = info.connected && not (is_empty info.modes)

unfoldable pub find_connected_connector : Card → List ℕ → Drawing Info
find_connected_connector card [] = fail no_connector
find_connected_connector card (h ∷ hs) = do
  info ← need (card.get_connector h) (query_failed h)
  if usable info then pure info else find_connected_connector card hs

abbrev pub allocated : List ℕ → Held → Held
allocated bytes s = record s { buffer = some bytes }

abbrev pub filled : Rgb → Option (List ℕ) → Option (List ℕ)
filled color none = none
filled color (some bytes) = some (fill_buffer_with_color color bytes)

-- The picture shows what the buffer has now.
abbrev pub show_picture : ℕ → ℕ → Mode → Option (List ℕ) → Held → Held
show_picture crtc connector mode none s = s
show_picture crtc connector mode (some bytes) s =
    let p : Picture = record { crtc = crtc; connector = connector; mode = mode; bytes = bytes } in
    record s { on_screen = some p; pictures = s.pictures ++ p ∷ [] }

-- From the chosen connector on: 30 seconds pass between the two calls of `set_crtc`, and an error of
-- the second is a warning.
unfoldable pub draw : Card → Rgb → ℕ → Mode → ℕ → Drawing (Unit {0})
draw card color connector mode crtc = do
  bytes ← need (card.dumb_buffer mode) no_dumb_buffer
  modify (allocated bytes)
  check card.adds_framebuffer no_framebuffer
  modify (λ s. record s { framebuffer = true })
  check card.maps map_failed
  modify (λ s. record s { buffer = filled color s.buffer })
  check card.sets_crtc set_failed
  modify (λ s. show_picture crtc connector mode s.buffer s)
  attempt {F = Failure}
      (do check card.clears_crtc clear_failed; modify (λ s. record s { on_screen = none }))
  check card.destroys_framebuffer framebuffer_kept
  modify (λ s. record s { framebuffer = false })
  check card.destroys_dumb_buffer dumb_buffer_kept
  modify (λ s. record s { buffer = none })

unfoldable pub fill_display : Card → Rgb → Drawing (Unit {0})
fill_display card color = do
  check card.opens open_failed
  handles ← need card.resource_handles no_resources
  info ← find_connected_connector card handles
  mode ← need (first info.modes) no_modes
  encoder ← need (or_else info.current_encoder (first info.encoders)) no_encoder
  answer ← need (card.get_encoder encoder) encoder_failed
  crtc ← need answer no_crtc
  draw card color info.handle mode crtc
