-- ===== src/TestClient/Gradient.antt =====
-- compositor-rs/src/bin/test-client.rs: what the loops of `main` draw.
use fundroid.Prelude.{
  ℕ, zero, suc, ◌+◌, ◌*◌, ◌≤◌, ◌<◌, ◌≡◌, ◌&&◌, ltb, ◌==◌, if◌then◌else◌, arith, ◌∙◌,
}
use fundroid.TestClient.{gradient, store, draw_row, draw_rows, draw_gradient, width, height}

-- A pixel that is stored, seen at its own index and at another.
module _ (x y x' y' : ℕ) (x_in : x < 200) (x'_in : x' < 200) (pixels : ℕ → ℕ) (pixel : ℕ) where
  pub store-at :
      store (y' * 200 + x') pixel pixels (y * 200 + x)
      ≡ (if y == y' && x == x' then pixel else pixels (y * 200 + x))
  unfolding store
  store-at = ground arith

module _ (x y : ℕ) (x_in : x < 200) where
  draw_row-at :
      (n y' : ℕ) (pixels : ℕ → ℕ)
      → n ≤ 200
      → draw_row n y' pixels (y * 200 + x)
        ≡ (if y == y' && ltb x n then gradient x y else pixels (y * 200 + x))
  unfolding draw_row
  draw_row-at zero y' pixels h = ground arith
  draw_row-at (suc n) y' pixels h =
      store-at x y n y' x_in (omega arith) (draw_row n y' pixels) (gradient n y')
      ∙ ground (arith, draw_row-at n y' pixels (omega arith))

  draw_rows-at : (n : ℕ) (pixels : ℕ → ℕ) → y < n → draw_rows n pixels (y * 200 + x) ≡ gradient x y
  unfolding draw_rows
  draw_rows-at zero pixels h = absurd (omega arith)
  draw_rows-at (suc n) pixels h =
      draw_row-at width n (draw_rows n pixels) (omega arith) ∙ ground (arith, draw_rows-at n pixels)

  pub draw_gradient-at :
      (pixels : ℕ → ℕ) → y < 200 → draw_gradient pixels (y * 200 + x) ≡ gradient x y
  unfolding draw_gradient
  draw_gradient-at pixels h = draw_rows-at height pixels h
