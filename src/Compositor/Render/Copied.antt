-- ===== src/Compositor/Render/Copied.antt =====
-- compositor-rs/src/main.rs: what the loops of `render_buffer` leave in each pixel.
use fundroid.Prelude.{
  ℕ, zero, suc, ◌+◌, ◌*◌, ◌/◌, ◌%◌, ◌^◌, ◌≤◌, ◌<◌, ◌≡◌, ◌≢◌, refl, inl, inr, Bool, true, ◌&&◌, ltb,
  ◌==◌, if◌then◌else◌, arith, Bool-cases, ◌∙◌, subst,
}
use fundroid.Compositor.{BufferData, DrmState}
use fundroid.Compositor.Render.{
  Blit, src_idx, dst_idx, copy_pixel, copy_row, copy_rows, copy_pixels, blit_of, min, to_usize,
  quarter, mul_i32, mul_u16,
}

-- Two pixels of a screen have two indices.
pub index_unique :
    (w y y' x x' : ℕ) → x < w → x' < w → y * w + x ≡ y' * w + x' → (y ≡ y') × (x ≡ x')
index_unique w zero zero x x' h h' e = omega arith
index_unique w zero (suc y') x x' h h' e = absurd (omega arith)
index_unique w (suc y) zero x x' h h' e = absurd (omega arith)
index_unique w (suc y) (suc y') x x' h h' e = omega (arith, index_unique w y y' x x' h h')

module _ (b : Blit) (x y : ℕ) (on_screen : x < b.fb_width) where
  abbrev value : Bool → (ℕ → ℕ) → ℕ
  value drawn fb = if drawn then b.client_pixels (src_idx b x y) else fb (dst_idx b x y)

  abbrev readable : Bool
  readable = ltb (src_idx b x y) b.client_len && ltb (dst_idx b x y) b.fb_len

  dst_idx-eq : (x' y' : ℕ) → x' < b.fb_width → dst_idx b x y ≡ dst_idx b x' y' → (y ≡ y') × (x ≡ x')
  unfolding dst_idx
  dst_idx-eq x' y' h e = index_unique b.fb_width y y' x x' on_screen h e

  copy_pixel-other :
      (x' y' : ℕ) (fb : ℕ → ℕ)
      → dst_idx b x y ≢ dst_idx b x' y'
      → copy_pixel b x' y' fb (dst_idx b x y) ≡ fb (dst_idx b x y)
  unfolding copy_pixel
  copy_pixel-other x' y' fb other = ground arith

  copy_pixel-same :
      (n : ℕ) (fb : ℕ → ℕ) → x ≡ n → copy_pixel b n y fb (dst_idx b x y) ≡ value readable fb
  unfolding copy_pixel
  copy_pixel-same n fb same = rw (← same) (ground arith)

  copy_row-other :
      (n y' : ℕ) (fb : ℕ → ℕ)
      → n ≤ b.fb_width
      → y ≢ y'
      → copy_row b n y' fb (dst_idx b x y) ≡ fb (dst_idx b x y)
  unfolding copy_row
  copy_row-other zero y' fb h other = refl
  copy_row-other (suc n) y' fb h other =
      copy_pixel-other n y' (copy_row b n y' fb) (λ e. other (dst_idx-eq n y' (omega arith) e).0)
      ∙ copy_row-other n y' fb (omega arith) other

  copy_row-at :
      (n : ℕ) (fb : ℕ → ℕ)
      → n ≤ b.fb_width
      → copy_row b n y fb (dst_idx b x y) ≡ value (ltb x n && readable) fb
  unfolding copy_row
  copy_row-at zero fb h = ground arith
  copy_row-at (suc n) fb h = elim (Bool-cases (x == n)) [
    | inl same ↦
        copy_pixel-same n (copy_row b n y fb) (ground arith)
        ∙ ground (arith, copy_row-at n fb (omega arith))
    | inr other ↦
        copy_pixel-other n y (copy_row b n y fb)
          (λ e. ground (arith, dst_idx-eq n y (omega arith) e))
        ∙ ground (arith, copy_row-at n fb (omega arith))
  ]

  copy_rows-at :
      (columns n : ℕ) (fb : ℕ → ℕ)
      → columns ≤ b.fb_width
      → copy_rows b columns n fb (dst_idx b x y) ≡ value (ltb y n && (ltb x columns && readable)) fb
  unfolding copy_rows
  copy_rows-at columns zero fb h = ground arith
  copy_rows-at columns (suc n) fb h = elim (Bool-cases (y == n)) [
    | inl same ↦
        let e : y ≡ n = ground arith in
        subst
          (λ r.
            copy_row b columns r (copy_rows b columns n fb) (dst_idx b x y)
            ≡ value (ltb y (suc n) && (ltb x columns && readable)) fb)
          e
          (copy_row-at columns (copy_rows b columns n fb) h
            ∙ ground (arith, copy_rows-at columns n fb h))
    | inr other ↦
        copy_row-other columns n (copy_rows b columns n fb) h (ground arith)
        ∙ ground (arith, copy_rows-at columns n fb h)
  ]

-- A slice of the framebuffer is only written below its length.
copy_row-beyond : (b : Blit) (n y i : ℕ) (fb : ℕ → ℕ) → b.fb_len ≤ i → copy_row b n y fb i ≡ fb i
unfolding copy_row copy_pixel
copy_row-beyond b zero y i fb h = refl
copy_row-beyond b (suc n) y i fb h = ground (arith, copy_row-beyond b n y i fb h)

copy_rows-beyond :
    (b : Blit) (columns n i : ℕ) (fb : ℕ → ℕ) → b.fb_len ≤ i → copy_rows b columns n fb i ≡ fb i
unfolding copy_rows
copy_rows-beyond b columns zero i fb h = refl
copy_rows-beyond b columns (suc n) i fb h =
    copy_row-beyond b columns n i _ h ∙ copy_rows-beyond b columns n i fb h

module _ (buf : BufferData) (pixels : ℕ → ℕ) (drm : DrmState) (fb : ℕ → ℕ) where
  pub copy_pixels-beyond :
      (i : ℕ) → mul_u16 drm.width drm.height ≤ i → copy_pixels buf pixels drm fb i ≡ fb i
  unfolding copy_pixels blit_of
  copy_pixels-beyond i h = copy_rows-beyond (blit_of buf pixels drm) _ _ i fb h

  -- Where the pixel has an index in either slice, and lies in the buffer.
  abbrev pub covered : ℕ → ℕ → Bool
  covered x y =
      (ltb x (to_usize buf.width) && (ltb y (to_usize buf.height) && ltb y drm.height))
      && (ltb (src_idx (blit_of buf pixels drm) x y) (to_usize (mul_i32 buf.width buf.height))
          && ltb (y * drm.width + x) (mul_u16 drm.width drm.height))

  -- The two loops copy exactly the pixels of the screen that the buffer covers and that have an
  -- index in both slices, each from its own place in the buffer; every other pixel of the screen
  -- stays as it was.
  pub copy_pixels-at :
      (x y : ℕ)
      → x < drm.width
      → copy_pixels buf pixels drm fb (y * drm.width + x) ≡ (
          if covered x y
          then pixels (src_idx (blit_of buf pixels drm) x y)
          else fb (y * drm.width + x))
  unfolding copy_pixels blit_of min dst_idx
  copy_pixels-at x y h =
      copy_rows-at (blit_of buf pixels drm) x y h (min (to_usize buf.width) drm.width)
        (min (to_usize buf.height) drm.height) fb (ground arith)
      ∙ ground arith

pub to_usize-small : (n : ℕ) → n < 2 ^ 31 → to_usize n ≡ n
unfolding to_usize
to_usize-small n h = ground arith

pub quarter-small : (n : ℕ) → n < 2 ^ 31 → quarter n ≡ n / 4
unfolding quarter
quarter-small n h = ground arith

index-lt : (w h x y : ℕ) → x < w → y < h → y * w + x < h * w
index-lt w zero x y p q = absurd (omega arith)
index-lt w (suc h) x zero p q = omega arith
index-lt w (suc h) x (suc y) p q = omega (arith, index-lt w h x y p (omega arith))

le-mul : (h w : ℕ) → 0 < w → h ≤ h * w
le-mul zero w p = omega arith
le-mul (suc h) w p = omega (arith, le-mul h w p)

le-mul_left : (h w : ℕ) → 0 < h → w ≤ h * w
le-mul_left zero w p = absurd (omega arith)
le-mul_left (suc h) w p = omega arith

row_lt : (w x y h : ℕ) → y * w + x < w * h → y < h
row_lt w x y zero p = absurd (omega arith)
row_lt w x zero (suc h) p = omega arith
row_lt w x (suc y) (suc h) p = omega (arith, row_lt w x y h (omega arith))

pub product_comm : (a b : ℕ) → a * b ≡ b * a
product_comm a b = grind arith

module _ (buf : BufferData) (pitch : buf.stride ≡ 4 * buf.width)
    (small : buf.height * buf.width < 2 ^ 29) (x y : ℕ) (x_in : x < buf.width)
    (y_in : y < buf.height) where
  width_small : buf.width < 2 ^ 29
  width_small = omega (arith, le-mul_left buf.height buf.width (omega arith))

  height_small : buf.height < 2 ^ 29
  height_small = omega (arith, le-mul buf.height buf.width (omega arith))

  stride_pixels : to_usize (quarter buf.stride) ≡ buf.width
  stride_pixels =
      rw (pitch, quarter-small (4 * buf.width) (omega (arith, width_small)))
        (to_usize-small (4 * buf.width / 4) (omega (arith, width_small)) ∙ omega arith)

  inside : y * buf.width + x < buf.height * buf.width
  inside = index-lt buf.width buf.height x y x_in y_in

  client_len : to_usize (mul_i32 buf.width buf.height) ≡ buf.height * buf.width
  unfolding mul_i32
  client_len =
      let e : buf.width * buf.height % 2 ^ 32 ≡ buf.height * buf.width =
        rw (product_comm buf.width buf.height) (omega (arith, small)) in
      rw e (to_usize-small (buf.height * buf.width) (omega (arith, small)))

  module _ (drm : DrmState) (pixels : ℕ → ℕ) (x_on : x < drm.width)
      (reached : y * drm.width + x < mul_u16 drm.width drm.height) where
    y_on : y < drm.height
    unfolding mul_u16
    y_on = row_lt drm.width x y drm.height (omega (arith, reached))

    source : src_idx (blit_of buf pixels drm) x y ≡ y * buf.width + x
    unfolding src_idx blit_of
    source = rw stride_pixels (omega (arith, inside, small))

    all_covered : covered buf pixels drm (λ i. 0) x y ≡ true
    all_covered =
        rw
          (
            source,
            client_len,
            to_usize-small buf.width (omega (arith, width_small)),
            to_usize-small buf.height (omega (arith, height_small)),
          )
          (ground (arith, inside, y_on))

    -- A buffer without gaps between its rows is copied pixel by pixel where it lies on the screen,
    -- if it has less than 2 ^ 29 pixels, up to the index that is the product of the two sizes of the
    -- screen as a u16.
    pub copy_pixels-whole :
        (fb : ℕ → ℕ)
        → copy_pixels buf pixels drm fb (y * drm.width + x) ≡ pixels (y * buf.width + x)
    copy_pixels-whole fb = copy_pixels-at buf pixels drm fb x y x_on ∙ rw (all_covered, source) refl
