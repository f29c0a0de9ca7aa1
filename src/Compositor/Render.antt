-- ===== src/Compositor/Render.antt =====
-- compositor-rs/src/main.rs: `render_buffer`. Arithmetic wraps around, as a release build does it.
pub mod Copied
pub mod Strided
pub mod Draws
pub mod Fits
use fundroid.Prelude.{
  ℕ, zero, suc, ◌+◌, ◌-◌, ◌*◌, ◌/◌, ◌%◌, ◌^◌, Bool, true, false, ◌&&◌, ◌||◌, Option, none, some,
  ltb, ◌==◌, if◌then◌else◌,
}
use fundroid.Compositor.{Compositor, Mapping, Kernel, BufferData, ShmPoolData, DrmState, called}

unfoldable pub mul_i32 : ℕ → ℕ → ℕ
mul_i32 a b = a * b % 2 ^ 32

-- `as usize` of an i32 extends its sign.
unfoldable pub to_usize : ℕ → ℕ
to_usize n = if ltb n (2 ^ 31) then n else n + (2 ^ 64 - 2 ^ 32)

-- `/ 4` of an i32 rounds towards 0.
unfoldable pub quarter : ℕ → ℕ
quarter n = if ltb n (2 ^ 31) then n / 4 else (2 ^ 32 - (2 ^ 32 - n) / 4) % 2 ^ 32

unfoldable pub mul_u16 : ℕ → ℕ → ℕ
mul_u16 a b = a * b % 2 ^ 16

unfoldable pub min : ℕ → ℕ → ℕ
min a b = if ltb a b then a else b

-- The slices that the loops read and write, the pitch of either in pixels.
pub record Blit : Type 0 where
  pub client_pixels : ℕ → ℕ
  pub client_len : ℕ
  pub stride_pixels : ℕ
  pub fb_len : ℕ
  pub fb_width : ℕ

unfoldable pub src_idx : Blit → ℕ → ℕ → ℕ
src_idx b x y = (y * b.stride_pixels + x) % 2 ^ 64

-- Both factors are u16, so that this does not wrap.
unfoldable pub dst_idx : Blit → ℕ → ℕ → ℕ
dst_idx b x y = y * b.fb_width + x

unfoldable pub copy_pixel : Blit → ℕ → ℕ → (ℕ → ℕ) → ℕ → ℕ
copy_pixel b x y fb i =
    if ltb (src_idx b x y) b.client_len && ltb (dst_idx b x y) b.fb_len
    then if i == dst_idx b x y then b.client_pixels (src_idx b x y) else fb i
    else fb i

-- The inner loop, over `x` below the second argument, upwards.
unfoldable pub copy_row : Blit → ℕ → ℕ → (ℕ → ℕ) → ℕ → ℕ
copy_row b zero y fb = fb
copy_row b (suc x) y fb = copy_pixel b x y (copy_row b x y fb)

-- The outer loop, over `y` below the third argument.
unfoldable pub copy_rows : Blit → ℕ → ℕ → (ℕ → ℕ) → ℕ → ℕ
copy_rows b columns zero fb = fb
copy_rows b columns (suc y) fb = copy_row b columns y (copy_rows b columns y fb)

-- The slice of the framebuffer has as many pixels as the product of two u16 says.
unfoldable pub blit_of : BufferData → (ℕ → ℕ) → DrmState → Blit
blit_of buf pixels drm = record {
  client_pixels = pixels;
  client_len = to_usize (mul_i32 buf.width buf.height);
  stride_pixels = to_usize (quarter buf.stride);
  fb_len = mul_u16 drm.width drm.height;
  fb_width = drm.width;
}

unfoldable pub copy_pixels : BufferData → (ℕ → ℕ) → DrmState → (ℕ → ℕ) → ℕ → ℕ
copy_pixels buf pixels drm fb =
    copy_rows (blit_of buf pixels drm) (min (to_usize buf.width) drm.width)
      (min (to_usize buf.height) drm.height) fb

-- A slice that is larger than the mapping that it lies in, or that the file does not reach, is
-- undefined behaviour.
pub data Rendered : Type 0 where
  rendered : Compositor → Rendered
  failed : Compositor → Rendered
  undefined : Rendered

unmapped : Compositor → Compositor
unmapped c = record c { mappings = c.mappings - 1 }

-- `set_crtc`; an error leaves by `?`, before `munmap`.
update_crtc : Kernel → Compositor → Rendered
unfolding unmapped called
update_crtc k c = if k.set_crtc c.calls then rendered (unmapped (called c)) else failed (called c)

draw_on : Kernel → BufferData → (ℕ → ℕ) → DrmState → Compositor → Rendered
unfolding update_crtc called
draw_on k buf pixels drm c =
    if k.map_dumb_buffer c.calls
    then update_crtc k
        (record (called c) { framebuffer = copy_pixels buf pixels drm c.framebuffer })
    else failed (called c)

draw : Kernel → BufferData → (ℕ → ℕ) → Option DrmState → Compositor → Rendered
unfolding draw_on unmapped
draw k buf pixels none c = rendered (unmapped c)
draw k buf pixels (some drm) c = draw_on k buf pixels drm c

unfoldable pub shm_size : BufferData → ℕ
shm_size buf = to_usize (mul_i32 buf.height buf.stride)

-- How many bytes the slice of the client's pixels has.
unfoldable pub slice_size : BufferData → ℕ
slice_size buf = 4 * to_usize (mul_i32 buf.width buf.height)

with_mapping : Kernel → BufferData → Option Mapping → Compositor → Rendered
unfolding draw
with_mapping k buf none c = failed c
with_mapping k buf (some m) c =
    if ltb (shm_size buf) (slice_size buf) || ltb m.readable (slice_size buf)
    then undefined
    else draw k buf m.pixels c.drm_state (record c { mappings = c.mappings + 1 })

-- `libc::mmap`, which fails for 0 bytes (EINVAL).
unfoldable pub map_memory : Kernel → (call size fd offset : ℕ) → Option Mapping
map_memory k call size fd offset = if size == 0 then none else k.mmap call size fd offset

with_pool : Kernel → BufferData → Option ShmPoolData → Compositor → Rendered
unfolding with_mapping called
with_pool k buf none c = failed c
with_pool k buf (some pool) c =
    with_mapping k buf (map_memory k c.calls (shm_size buf) pool.fd (to_usize buf.offset))
      (called c)

with_buffer : Kernel → Option BufferData → Compositor → Rendered
unfolding with_pool
with_buffer k none c = failed c
with_buffer k (some buf) c = with_pool k buf (c.shm_pools buf.pool_id) c

unfoldable pub render_buffer : Kernel → ℕ → Compositor → Rendered
unfolding with_buffer
render_buffer k buffer_id c = with_buffer k (c.buffers buffer_id) c
