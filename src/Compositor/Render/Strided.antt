-- ===== src/Compositor/Render/Strided.antt =====
-- compositor-rs/src/main.rs: what `render_buffer` copies from a buffer whose rows may have gaps.
use fundroid.Prelude.{
  ℕ, ◌+◌, ◌*◌, ◌/◌, ◌%◌, ◌^◌, ◌≤◌, ◌<◌, ◌≡◌, refl, inl, inr, ◌&&◌, ltb, if◌then◌else◌, arith, Bool,
  Bool-cases, ◌∙◌,
}
use fundroid.Compositor.{BufferData, DrmState}
use fundroid.Compositor.Render.{src_idx, copy_pixels, blit_of, to_usize, quarter, mul_i32, mul_u16}
use fundroid.Compositor.Render.Copied.{copy_pixels-at, covered, quarter-small, to_usize-small}

mul_mono : (a b m n : ℕ) → a ≤ m → b ≤ n → a * b ≤ m * n
mul_mono a b m n p q = grind arith

module _ (buf : BufferData) (pixels : ℕ → ℕ) (drm : DrmState) (fb : ℕ → ℕ)
    (width_ok : buf.width < 2 ^ 31) (height_ok : buf.height < 2 ^ 31)
    (stride_ok : buf.stride < 2 ^ 31) (size_ok : buf.width * buf.height < 2 ^ 31) (x y : ℕ) where
  -- The pixel lies in the buffer and on the screen, and has an index in either slice.
  abbrev pub within : Bool
  within =
      (ltb x buf.width && (ltb y buf.height && ltb y drm.height))
      && (ltb (y * (buf.stride / 4) + x) (buf.width * buf.height)
          && ltb (y * drm.width + x) (drm.width * drm.height % 2 ^ 16))

  pitch : to_usize (quarter buf.stride) ≡ buf.stride / 4
  pitch =
      rw (quarter-small buf.stride stride_ok)
        (to_usize-small (buf.stride / 4) (omega (arith, stride_ok)))

  source :
      x < buf.width
      → y < buf.height
      → src_idx (blit_of buf pixels drm) x y ≡ y * (buf.stride / 4) + x
  unfolding src_idx blit_of
  source x_in y_in =
      let small : y * (buf.stride / 4) ≤ 2 ^ 31 * 2 ^ 29 =
        mul_mono y (buf.stride / 4) (2 ^ 31) (2 ^ 29) (omega arith) (omega arith) in
      rw pitch (omega (arith, small))

  client_len : to_usize (mul_i32 buf.width buf.height) ≡ buf.width * buf.height
  unfolding mul_i32
  client_len =
      let e : buf.width * buf.height % 2 ^ 32 ≡ buf.width * buf.height = omega (arith, size_ok) in
      rw e (to_usize-small (buf.width * buf.height) size_ok)

  covers : covered buf pixels drm fb x y ≡ within
  unfolding mul_u16
  covers =
      rw (to_usize-small buf.width width_ok, to_usize-small buf.height height_ok, client_len)
        (elim (Bool-cases (ltb x buf.width && ltb y buf.height)) [
          | inl inside ↦ rw (source (ground arith) (ground arith)) refl
          | inr outside ↦ ground arith
        ])

  -- The two loops copy a pixel of the screen from the buffer, from the column and the row of its own
  -- in rows of a quarter of the stride, exactly where the buffer covers it and either index is below
  -- the length of its slice: the product of the buffer's sizes, or that of the screen's as a u16. Every
  -- other pixel stays as it was. The sizes and the stride are not negative, and the product of the
  -- sizes is an i32.
  pub copy_pixels-strided :
      x < drm.width
      → copy_pixels buf pixels drm fb (y * drm.width + x)
        ≡ (if within then pixels (y * (buf.stride / 4) + x) else fb (y * drm.width + x))
  copy_pixels-strided x_on =
      copy_pixels-at buf pixels drm fb x y x_on
      ∙ rw covers (elim (Bool-cases within) [
        | inl drawn ↦ rw (drawn, source (ground arith) (ground arith)) refl
        | inr without ↦ rw without refl
      ])
