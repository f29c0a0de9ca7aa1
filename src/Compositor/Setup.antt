-- ===== src/Compositor/Setup.antt =====
-- compositor-rs/src/main.rs: how `main` sets the screen up, before it serves clients.
pub mod First
use fundroid.Prelude.{
  ℕ, ◌+◌, Bool, true, false, ◌&&◌, not, Option, none, some, List, [], ◌∷◌, is_empty, ltb,
  if◌then◌else◌,
}
use fundroid.Compositor.{DrmState}
use fundroid.Compositor.Render.{mul_u16}

-- `get_connector`: what a connector is, as far as `main` looks.
pub record Connector : Type 0 where
  pub handle : ℕ
  pub connected : Bool
  pub modes : List DrmState
  pub current_encoder : Option ℕ

pub data SetupError : Type 0 where
  kernel : ℕ → SetupError  -- a call that failed, by its place in `main`
  no_connected_connector : SetupError
  no_encoder : SetupError
  no_crtc : SetupError

pub data Setup (A : Type 0) : Type 0 where
  ok : A → Setup A
  err : SetupError → Setup A

infixl 5 ◌>>=◌ ◌>>◌
unfoldable pub ◌>>=◌ : {A B : Type 0} → Setup A → (A → Setup B) → Setup B
ok a >>= f = f a
err e >>= f = err e

abbrev pub ◌>>◌ : {A : Type 0} → Setup (Unit {0}) → Setup A → Setup A
m >> n = m >>= λ u. n

-- The calls of the drm crate and of the system in the order of `main`. `get_connector` is asked for
-- every connector, and a second time for the chosen one.
pub record Drm : Type 0 where
  pub open_card : Bool
  pub resource_handles : Option (List ℕ)
  pub get_connector : ℕ → Option Connector
  pub get_connector_again : ℕ → Option Connector
  pub get_encoder : ℕ → Option (Option ℕ)
  pub create_dumb_buffer : Bool
  pub add_framebuffer : Bool
  pub map_dumb_buffer : Bool
  pub open_tty : Bool
  pub set_graphics_mode : Bool
  pub set_crtc : Bool
  pub new_display : Bool
  pub bind_socket : Bool

abbrev need : {A : Type 0} → ℕ → Option A → Setup A
need place none = err (kernel place)
need place (some a) = ok a

abbrev check : ℕ → Bool → Setup (Unit {0})
check place true = ok tt
check place false = err (kernel place)

-- The handle and the mode, if the connector is connected and has modes.
unfoldable pub usable : ℕ → Connector → Option (ℕ × DrmState)
usable h conn =
    if conn.connected then elim conn.modes [ [] ↦ none | m ∷ ms ↦ some (h, m) ] else none

-- The loop over the connectors, which ends at the first one that is usable.
unfoldable pub find_connector : Drm → List ℕ → Setup (ℕ × DrmState)
unfolding usable
find_connector d [] = err no_connected_connector
find_connector d (h ∷ hs) =
    let rest = find_connector d hs in
    elim (d.get_connector h) [
      | none ↦ err (kernel 2)
      | some conn ↦ elim (usable h conn) [ none ↦ rest | some chosen ↦ ok chosen ]
    ]

abbrev orange : ℕ
orange = 0x00ff8800

-- The fill of the mapped buffer: the product is one of two u16.
unfoldable pub fill : DrmState → (ℕ → ℕ) → ℕ → ℕ
fill mode pixels i = if ltb i (mul_u16 mode.width mode.height) then orange else pixels i

pub record Screen : Type 0 where
  pub crtc : ℕ
  pub connector : ℕ
  pub mode : DrmState
  pub pixels : ℕ → ℕ
  pub graphics_mode : Bool

abbrev encoder_of : Option ℕ → Setup ℕ
encoder_of none = err no_encoder
encoder_of (some e) = ok e

abbrev crtc_of : Option ℕ → Setup ℕ
crtc_of none = err no_crtc
crtc_of (some c) = ok c

-- From the chosen connector on. A failure to set the graphics mode is a warning.
pub show : Drm → (ℕ → ℕ) → ℕ × DrmState → Setup Screen
unfolding fill
show d pixels (handle, mode) = do
  conn ← need 3 (d.get_connector_again handle)
  encoder ← encoder_of conn.current_encoder
  possible ← need 4 (d.get_encoder encoder)
  crtc ← crtc_of possible
  check 5 d.create_dumb_buffer
  check 6 d.add_framebuffer
  check 7 d.map_dumb_buffer
  check 8 d.open_tty
  check 9 d.set_crtc
  check 10 d.new_display
  check 11 d.bind_socket
  ok (record {
    crtc = crtc;
    connector = handle;
    mode = mode;
    pixels = fill mode pixels;
    graphics_mode = d.set_graphics_mode;
  })

unfoldable pub set_up : Drm → (ℕ → ℕ) → Setup Screen
unfolding find_connector show
set_up d pixels = do
  check 0 d.open_card
  handles ← need 1 d.resource_handles
  chosen ← find_connector d handles
  show d pixels chosen
