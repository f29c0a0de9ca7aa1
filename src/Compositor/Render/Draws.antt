-- ===== src/Compositor/Render/Draws.antt =====
-- compositor-rs/src/main.rs: what `render_buffer` changes, and what it does not.
use fundroid.Prelude.{
  ℕ, Bool, true, false, if◌then◌else◌, ◌+◌, ◌≤◌, ◌≡◌, refl, Option, none, some, arith, Bool-cases,
  inl, inr,
}
use fundroid.Compositor.{Mapping, Compositor, Kernel, BufferData, ShmPoolData, DrmState, called}
use fundroid.Compositor.Render.{
  map_memory, Rendered, rendered, failed, undefined, render_buffer, with_buffer, with_pool,
  with_mapping, draw, draw_on, update_crtc, unmapped, mul_u16, to_usize, shm_size, copy_pixels,
}
use fundroid.Compositor.Render.Copied.{copy_pixels-beyond}

-- Only pixels below the length of the slice may be new.
pub record Draws (c c' : Compositor) : Type 0 where
  pub surfaces : c'.surfaces ≡ c.surfaces
  pub shm_pools : c'.shm_pools ≡ c.shm_pools
  pub buffers : c'.buffers ≡ c.buffers
  pub drm_state : c'.drm_state ≡ c.drm_state
  pub input_state : c'.input_state ≡ c.input_state
  pub sent : c'.sent ≡ c.sent
  pub beyond :
      (drm : DrmState) (i : ℕ)
      → c.drm_state ≡ some drm
      → mul_u16 drm.width drm.height ≤ i
      → c'.framebuffer i ≡ c.framebuffer i

-- After a success no mapping is left; after an error at most one is.
abbrev pub After : Compositor → Rendered → Type 0
After c (rendered c') = Draws c c' × (c'.mappings ≡ c.mappings)
After c (failed c') = Draws c c' × (c'.mappings ≤ c.mappings + 1)
After c undefined = Unit

module _ (k : Kernel) (c : Compositor) where
  -- A state that differs in the calls and mappings alone.
  Draws-same : (n m : ℕ) → Draws c (record c { calls = n; mappings = m })
  Draws-same n m = record {
    surfaces = refl;
    shm_pools = refl;
    buffers = refl;
    drm_state = refl;
    input_state = refl;
    sent = refl;
    beyond = λ drm i e h. refl;
  }

  Draws-copied :
      (n m : ℕ) (buf : BufferData) (pixels : ℕ → ℕ) (drm : DrmState)
      → c.drm_state ≡ some drm
      → Draws c (record c {
        calls = n;
        mappings = m;
        framebuffer = copy_pixels buf pixels drm c.framebuffer;
      })
  Draws-copied n m buf pixels drm e = record {
    surfaces = refl;
    shm_pools = refl;
    buffers = refl;
    drm_state = refl;
    input_state = refl;
    sent = refl;
    beyond =
        λ drm' i e' h. copy_pixels-beyond buf pixels drm c.framebuffer i (ground (arith, e, e', h));
  }

  mapped : Compositor
  mapped = record (called c) { mappings = c.mappings + 1 }

  draw-After :
      (buf : BufferData) (pixels : ℕ → ℕ) (o : Option DrmState)
      → c.drm_state ≡ o
      → After c (draw k buf pixels o mapped)
  unfolding draw draw_on update_crtc unmapped called mapped
  draw-After buf pixels none e = (Draws-same _ _, omega arith)
  draw-After buf pixels (some drm) e = elim (Bool-cases (k.map_dumb_buffer (c.calls + 1))) [
    | inr bad ↦ rw bad (Draws-same _ _, omega arith)
    | inl good ↦ elim (Bool-cases (k.set_crtc (c.calls + 1 + 1))) [
      | inl shown ↦ rw (good, shown) (Draws-copied _ _ buf pixels drm e, omega arith)
      | inr bad ↦ rw (good, bad) (Draws-copied _ _ buf pixels drm e, omega arith)
    ]
  ]

  unless : (b : Bool) (r : Rendered) → After c r → After c (if b then undefined else r)
  unless true r h = tt
  unless false r h = h

  with_mapping-After :
      (buf : BufferData) (o : Option Mapping) → After c (with_mapping k buf o (called c))
  unfolding with_mapping called mapped
  with_mapping-After buf none = (Draws-same _ _, omega arith)
  with_mapping-After buf (some m) = unless _ _ (draw-After buf m.pixels c.drm_state refl)

  with_pool-After : (buf : BufferData) (o : Option ShmPoolData) → After c (with_pool k buf o c)
  unfolding with_pool
  with_pool-After buf none = (Draws-same _ _, omega arith)
  with_pool-After buf (some pool) =
      with_mapping-After buf (map_memory k c.calls (shm_size buf) pool.fd (to_usize buf.offset))

  with_buffer-After : (o : Option BufferData) → After c (with_buffer k o c)
  unfolding with_buffer
  with_buffer-After none = (Draws-same _ _, omega arith)
  with_buffer-After (some buf) = with_pool-After buf (c.shm_pools buf.pool_id)

  pub render_buffer-After : (buffer_id : ℕ) → After c (render_buffer k buffer_id c)
  unfolding render_buffer
  render_buffer-After buffer_id = with_buffer-After (c.buffers buffer_id)
