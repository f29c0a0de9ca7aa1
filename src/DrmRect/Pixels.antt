-- ===== src/DrmRect/Pixels.antt =====
-- rust/drm_rect/src/lib.rs: the bytes of a filled buffer.
use fundroid.Prelude.{
  ℕ, suc, zero, ◌+◌, ◌*◌, ◌<◌, ◌≤◌, ◌≡◌, List, [], ◌∷◌, length, Option, none, some, refl, arith, ap,
}
use fundroid.DrmRect.{Rgb, fill_buffer_with_color}

-- The byte at an index.
abbrev pub get_elem? : List ℕ → ℕ → Option ℕ
get_elem? [] n = none
get_elem? (x ∷ xs) zero = some x
get_elem? (x ∷ xs) (suc n) = get_elem? xs n

-- The byte of a pixel of this colour: blue, green, red, and an opaque alpha.
abbrev pub channel : Rgb → ℕ → ℕ
channel c zero = c.b
channel c (suc zero) = c.g
channel c (suc (suc zero)) = c.r
channel c _ = 0xff

-- Filling keeps the length of the buffer.
length-fill_buffer_with_color :
    (c : Rgb) (buf : List ℕ) → length (fill_buffer_with_color c buf) ≡ length buf
unfolding fill_buffer_with_color
length-fill_buffer_with_color c [] = refl
length-fill_buffer_with_color c (p ∷ []) = refl
length-fill_buffer_with_color c (p ∷ q ∷ []) = refl
length-fill_buffer_with_color c (p ∷ q ∷ s ∷ []) = refl
length-fill_buffer_with_color c (p ∷ q ∷ s ∷ t ∷ rest) =
    ap (λ n. suc (suc (suc (suc n)))) (length-fill_buffer_with_color c rest)

byte_at :
    (c : Rgb) (buf : List ℕ) (pixel k i : ℕ)
    → k < 4
    → i ≡ pixel * 4 + k
    → pixel * 4 + 4 ≤ length buf
    → get_elem? (fill_buffer_with_color c buf) i ≡ some (channel c k)
unfolding fill_buffer_with_color
byte_at c [] pixel k i h same fits = absurd (omega arith)
byte_at c (p ∷ []) pixel k i h same fits = absurd (omega arith)
byte_at c (p ∷ q ∷ []) pixel k i h same fits = absurd (omega arith)
byte_at c (p ∷ q ∷ s ∷ []) pixel k i h same fits = absurd (omega arith)
byte_at c (p ∷ q ∷ s ∷ t ∷ rest) zero zero i h same fits = let e : i ≡ 0 = omega arith in rw e refl
byte_at c (p ∷ q ∷ s ∷ t ∷ rest) zero (suc zero) i h same fits =
    let e : i ≡ 1 = omega arith in rw e refl
byte_at c (p ∷ q ∷ s ∷ t ∷ rest) zero (suc (suc zero)) i h same fits =
    let e : i ≡ 2 = omega arith in rw e refl
byte_at c (p ∷ q ∷ s ∷ t ∷ rest) zero (suc (suc (suc zero))) i h same fits =
    let e : i ≡ 3 = omega arith in rw e refl
byte_at c (p ∷ q ∷ s ∷ t ∷ rest) zero (suc (suc (suc (suc k)))) i h same fits = absurd (omega arith)
byte_at c (p ∷ q ∷ s ∷ t ∷ rest) (suc pixel) k i h same fits =
    let e : i ≡ suc (suc (suc (suc (pixel * 4 + k)))) = omega arith in
    rw e (byte_at c rest pixel k (pixel * 4 + k) h refl (omega arith))

-- Every byte of a whole pixel has the value of its channel in the colour, and the length of the
-- buffer stays: for each pixel below a quarter of the length and each of its four bytes.
pub get_elem?-fill_buffer_with_color :
    (c : Rgb) (buf : List ℕ) (pixel k : ℕ)
    → k < 4
    → pixel * 4 + 4 ≤ length buf
    → (get_elem? (fill_buffer_with_color c buf) (pixel * 4 + k) ≡ some (channel c k))
      × (length (fill_buffer_with_color c buf) ≡ length buf)
get_elem?-fill_buffer_with_color c buf pixel k h fits =
    (byte_at c buf pixel k (pixel * 4 + k) h refl fits, length-fill_buffer_with_color c buf)
