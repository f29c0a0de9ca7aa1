-- ===== src/Compositor/Handle/Show.antt =====
-- compositor-rs/src/main.rs: a client that shows a buffer, which it draws or which is smaller than its
-- pixels.
use fundroid.Prelude.{
  ℕ, ◌+◌, ◌%◌, ◌^◌, ◌≤◌, ◌≡◌, refl, ap, ◌∙◌, true, none, some, List, [], ◌∷◌, ◌++◌, arith, ==_refl,
}
use fundroid.Prelude.Table
use fundroid.Compositor.{
  Mapping, Resource, BufferData, SurfaceData, DrmState, callback_done, Compositor, Kernel, called,
}
use fundroid.Compositor.Render.{
  render_buffer, rendered, copy_pixels, map_memory, mul_i32, to_usize, shm_size,
}
use fundroid.Compositor.Render.Fits.{Sound, render_buffer-rendered}
use fundroid.Compositor.Handle.Sequence.{dispatch_next, dispatch_last}
use fundroid.Compositor.Handle.{
  WEnum, into_format, Request, attach, commit, frame, other, create_pool, create_buffer, handle,
  send_callback, take_callback, commit_surface, render_attached, after_render, store_pool, outcome,
  dispatch_clients, or_insert, request_frame, set_surface,
}

-- A client creates a pool and a buffer in it, attaches the buffer and commits it.
abbrev pub show_buffer :
    (surface pool buffer : Resource) (fd size offset width height stride : ℕ) → WEnum → List Request
show_buffer surface pool buffer fd size offset width height stride format =
    create_pool pool fd size
    ∷ create_buffer pool buffer offset width height stride format
    ∷ attach surface (some buffer)
    ∷ commit surface
    ∷ []

-- The same with a frame callback; the request that is ignored marks the damage.
abbrev pub show_frame :
    (surface pool buffer callback : Resource) (fd size offset width height stride : ℕ)
    → WEnum
    → List Request
show_frame surface pool buffer callback fd size offset width height stride format =
    create_pool pool fd size
    ∷ create_buffer pool buffer offset width height stride format
    ∷ attach surface (some buffer)
    ∷ other
    ∷ frame surface callback
    ∷ commit surface
    ∷ []

-- A commit of a surface with a buffer that is drawn, and with a callback.
commit-rendered :
    (k : Kernel) (c d : Compositor) (surface callback : Resource) (id : ℕ)
    → c.surfaces surface.protocol_id
      ≡ some (record { buffer_id = some id; frame_callback = some callback })
    → render_buffer k id c ≡ rendered d
    → d.surfaces ≡ c.surfaces
    → (c' : Compositor) × (handle k (commit surface) c ≡ some c')
      × (c'.framebuffer ≡ d.framebuffer)
      × (c'.sent ≡ d.sent ++ callback_done callback (k.now_millis d.calls % 2 ^ 32) ∷ [])
unfolding handle commit_surface render_attached after_render outcome send_callback take_callback
    called
commit-rendered k c d surface callback id there drawn kept =
    let c' : Compositor = record d {
      surfaces =
          Table.insert surface.protocol_id (record { buffer_id = some id; frame_callback = none })
            d.surfaces;
      sent = d.sent ++ callback_done callback (k.now_millis d.calls % 2 ^ 32) ∷ [];
      calls = d.calls + 1;
    } in
    (c', rw (there, drawn, kept, there) refl, refl, refl)

module _ (k : Kernel) (c : Compositor) (surface pool buffer : Resource)
    (fd size offset width height stride fd' : ℕ) (format : WEnum) (mapping : Mapping) where
  abbrev with_pool : Compositor
  with_pool = store_pool pool.protocol_id size (some fd') (called c)

  abbrev created : BufferData
  created = record {
    pool_id = pool.protocol_id;
    offset = offset;
    width = width;
    height = height;
    stride = stride;
    format = into_format format;
  }

  abbrev with_buffer : Compositor
  with_buffer = record with_pool {
    buffers = Table.insert buffer.protocol_id created with_pool.buffers;
  }

  abbrev attached : SurfaceData
  attached = record (or_insert (with_pool.surfaces surface.protocol_id)) {
    buffer_id = some buffer.protocol_id;
  }

  abbrev with_surface : Compositor
  with_surface = set_surface surface.protocol_id attached with_buffer

  -- A client that shows a sound buffer sees its pixels copied to the framebuffer and its callback
  -- answered, if the calls of the kernel succeed.
  module _ (drm : DrmState) (callback : Resource) where
    abbrev with_callback : Compositor
    with_callback =
        set_surface surface.protocol_id (record attached { frame_callback = some callback })
          with_surface

    pub show_frame-shown :
        k.dup c.calls fd ≡ some fd'
        → map_memory k (c.calls + 1) (to_usize (mul_i32 height stride)) fd' (to_usize offset)
          ≡ some mapping
        → to_usize (mul_i32 height stride) ≤ mapping.readable
        → Sound width height stride
        → c.drm_state ≡ some drm
        → k.map_dumb_buffer (c.calls + 1 + 1) ≡ true
        → k.set_crtc (c.calls + 1 + 1 + 1) ≡ true
        → (c' : Compositor) × (dispatch_clients k
              (show_frame surface pool buffer callback fd size offset width height stride format)
              c
            ≡ some c')
          × (c'.framebuffer ≡ copy_pixels created mapping.pixels drm c.framebuffer)
          × (c'.sent ≡ c.sent ++ callback_done callback (k.now_millis (c.calls + 4) % 2 ^ 32) ∷ [])
    unfolding handle store_pool request_frame called shm_size
    show_frame-shown dup maps reaches sound screen mapped shown =
        let drawn =
          render_buffer-rendered k with_callback buffer.protocol_id created
            (record { fd = fd'; size = size }) mapping drm (rw (==_refl buffer.protocol_id) refl)
            (rw (==_refl pool.protocol_id) refl) maps reaches sound screen mapped shown in
        let last =
          commit-rendered k with_callback drawn.0 surface callback buffer.protocol_id
            (rw (==_refl surface.protocol_id) refl) drawn.1 drawn.3 in
        (
          last.0,
          dispatch_next k (create_pool pool fd size) _ c with_pool (rw dup refl)
              ∙ dispatch_next k (create_buffer pool buffer offset width height stride format) _
                  with_pool with_buffer refl
              ∙ dispatch_next k (attach surface (some buffer)) _ with_buffer with_surface refl
              ∙ dispatch_next k other _ with_surface with_surface refl
              ∙ dispatch_next k (frame surface callback) _ with_surface with_callback
                  (rw (==_refl surface.protocol_id) refl)
              ∙ dispatch_last k (commit surface) with_callback last.0 last.1,
          last.2 ∙ drawn.2,
          last.3
              ∙ rw (drawn.5, drawn.4)
                  (ap (λ n. c.sent ++ callback_done callback (k.now_millis n % 2 ^ 32) ∷ [])
                    (omega arith)),
        )
