-- ===== src/DrmRect.antt =====
-- rust/drm_rect/src/lib.rs: `fill_buffer_with_color` on the bytes of the buffer that the drm
-- crate mapped.
pub mod Pixels
pub mod Display
use fundroid.Prelude.{
  ℕ, List, [], ◌∷◌, Bool, true, false, ◌&&◌, not, Option, none, some, is_empty, if◌then◌else◌,
}

-- The colour of a pixel, red, green and blue.
pub record Rgb : Type 0 where
  pub r : ℕ
  pub g : ℕ
  pub b : ℕ

-- The loop over `chunks_exact_mut(4)`: bytes behind the last whole chunk stay as they are.
unfoldable pub fill_buffer_with_color : Rgb → List ℕ → List ℕ
fill_buffer_with_color c (p ∷ q ∷ s ∷ t ∷ rest) =
    c.b ∷ c.g ∷ c.r ∷ 0xff ∷ fill_buffer_with_color c rest
fill_buffer_with_color c rest = rest
