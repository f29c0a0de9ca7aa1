-- ===== src/Compositor/Render/Fits.antt =====
-- compositor-rs/src/main.rs: which buffers `render_buffer` draws without reading behind the mapping.
use fundroid.Prelude.{
  ℕ, zero, suc, ◌+◌, ◌-◌, ◌*◌, ◌^◌, ◌≤◌, ◌<◌, ◌≡◌, ◌≢◌, refl, true, false, Option, none, some, ltb,
  arith,
}
use fundroid.Compositor.{Mapping, ShmPoolData, BufferData, DrmState, Compositor, Kernel, called}
use fundroid.Compositor.Render.{
  rendered, undefined, map_memory, render_buffer, with_buffer, with_pool, with_mapping, draw,
  draw_on, update_crtc, mul_i32, to_usize, slice_size, shm_size, unmapped, copy_pixels,
}

-- The rows of the buffer do not overlap, and its size is an i32.
abbrev pub Sound : (width height stride : ℕ) → Type 0
Sound width height stride = (4 * width ≤ stride) × (height * stride < 2 ^ 31)

rows-le : (w s h : ℕ) → 4 * w ≤ s → 4 * (h * w) ≤ h * s
rows-le w s zero p = omega arith
rows-le w s (suc h) p = omega (arith, rows-le w s h p)

-- The slice of a sound buffer lies in its mapping.
Sound-fits :
    (b : BufferData) → Sound b.width b.height b.stride → ltb (shm_size b) (slice_size b) ≡ false
unfolding slice_size shm_size mul_i32 to_usize
Sound-fits b (rows, size) =
    let small : 4 * (b.height * b.width) ≤ b.height * b.stride =
      rows-le b.width b.stride b.height rows in
    let e : b.width * b.height ≡ b.height * b.width = grind arith in
    rw e (ground (arith, small, size))

-- The file of the client reaches as far as what is mapped.
abbrev pub Backed : Kernel → Type 0
Backed k =
    (call size fd offset : ℕ) (m : Mapping)
    → k.mmap call size fd offset ≡ some m
    → size ≤ m.readable

-- A slice that the file does not reach is longer than what can be read.
Sound-readable :
    (b : BufferData) (readable : ℕ)
    → Sound b.width b.height b.stride
    → shm_size b ≤ readable
    → ltb readable (slice_size b) ≡ false
Sound-readable b readable sound reaches = ground (arith, Sound-fits b sound, reaches)

module _ (k : Kernel) (backed : Backed k) (c : Compositor) where
  mapped-Backed :
      (call size fd offset : ℕ) (m : Mapping)
      → map_memory k call size fd offset ≡ some m
      → size ≤ m.readable
  unfolding map_memory
  mapped-Backed call size fd offset m maps = backed call size fd offset m (ground arith)

  draw_on-defined :
      (b : BufferData) (pixels : ℕ → ℕ) (drm : DrmState) (d : Compositor)
      → draw_on k b pixels drm d ≢ undefined
  unfolding draw_on update_crtc
  draw_on-defined b pixels drm d h = ground arith

  draw-defined :
      (b : BufferData) (pixels : ℕ → ℕ) (o : Option DrmState) (d : Compositor)
      → draw k b pixels o d ≢ undefined
  unfolding draw
  draw-defined b pixels none d h = cc
  draw-defined b pixels (some drm) d h = draw_on-defined b pixels drm d h

  with_mapping-defined :
      (b : BufferData) (o : Option Mapping) (d : Compositor)
      → Sound b.width b.height b.stride
      → ((m : Mapping) → o ≡ some m → shm_size b ≤ m.readable)
      → with_mapping k b o d ≢ undefined
  unfolding with_mapping
  with_mapping-defined b none d sound reaches = λ h. cc
  with_mapping-defined b (some m) d sound reaches =
      rw (Sound-fits b sound, Sound-readable b m.readable sound (reaches m refl))
        (draw-defined b m.pixels d.drm_state _)

  with_pool-defined :
      (b : BufferData) (o : Option ShmPoolData)
      → Sound b.width b.height b.stride
      → with_pool k b o c ≢ undefined
  unfolding with_pool
  with_pool-defined b none sound = λ h. cc
  with_pool-defined b (some pool) sound =
      with_mapping-defined b (map_memory k c.calls (shm_size b) pool.fd (to_usize b.offset))
        (called c) sound (mapped-Backed c.calls (shm_size b) pool.fd (to_usize b.offset))

  with_buffer-defined :
      (o : Option BufferData)
      → ((b : BufferData) → o ≡ some b → Sound b.width b.height b.stride)
      → with_buffer k o c ≢ undefined
  unfolding with_buffer
  with_buffer-defined none sound = λ h. cc
  with_buffer-defined (some b) sound = with_pool-defined b (c.shm_pools b.pool_id) (sound b refl)

  pub render_buffer-defined :
      (buffer_id : ℕ)
      → ((b : BufferData) → c.buffers buffer_id ≡ some b → Sound b.width b.height b.stride)
      → render_buffer k buffer_id c ≢ undefined
  unfolding render_buffer
  render_buffer-defined buffer_id sound = with_buffer-defined (c.buffers buffer_id) sound

-- A buffer whose pixels are more bytes than its rows have is undefined behaviour, once its memory
-- is mapped.
pub render_buffer-undefined :
    (k : Kernel) (c : Compositor) (buffer_id : ℕ) (b : BufferData) (pool : ShmPoolData)
    (mapping : Mapping)
    → c.buffers buffer_id ≡ some b
    → c.shm_pools b.pool_id ≡ some pool
    → map_memory k c.calls (shm_size b) pool.fd (to_usize b.offset) ≡ some mapping
    → shm_size b < slice_size b
    → render_buffer k buffer_id c ≡ undefined
unfolding render_buffer with_buffer with_pool with_mapping
render_buffer-undefined k c buffer_id b pool mapping there pooled maps short =
    rw (there, pooled, maps) (ground arith)

-- A sound buffer whose memory can be mapped, and lies in the file, is drawn, if the drm calls succeed.
pub render_buffer-rendered :
    (k : Kernel) (c : Compositor) (buffer_id : ℕ) (b : BufferData) (pool : ShmPoolData)
    (mapping : Mapping) (drm : DrmState)
    → c.buffers buffer_id ≡ some b
    → c.shm_pools b.pool_id ≡ some pool
    → map_memory k c.calls (shm_size b) pool.fd (to_usize b.offset) ≡ some mapping
    → shm_size b ≤ mapping.readable
    → Sound b.width b.height b.stride
    → c.drm_state ≡ some drm
    → k.map_dumb_buffer (c.calls + 1) ≡ true
    → k.set_crtc (c.calls + 1 + 1) ≡ true
    → (c' : Compositor) × (render_buffer k buffer_id c ≡ rendered c')
      × (c'.framebuffer ≡ copy_pixels b mapping.pixels drm c.framebuffer)
      × (c'.surfaces ≡ c.surfaces)
      × (c'.calls ≡ c.calls + 1 + 1 + 1)
      × (c'.sent ≡ c.sent)
unfolding render_buffer with_buffer with_pool with_mapping draw draw_on update_crtc unmapped called
render_buffer-rendered k c buffer_id b pool mapping drm there pooled maps reaches sound screen
      mapped shown =
    let c' : Compositor = record c {
      framebuffer = copy_pixels b mapping.pixels drm c.framebuffer;
      mappings = c.mappings + 1 - 1;
      calls = c.calls + 1 + 1 + 1;
    } in
    (
      c',
      rw
          (
            there,
            pooled,
            maps,
            Sound-fits b sound,
            Sound-readable b mapping.readable sound reaches,
            screen,
            mapped,
            shown,
          )
          refl,
      refl,
      refl,
      refl,
      refl,
    )
