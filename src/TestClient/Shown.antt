-- ===== src/TestClient/Shown.antt =====
-- compositor-rs/src/bin/test-client.rs and compositor-rs/src/main.rs: the picture of the client on
-- the screen of the compositor.
use fundroid.Prelude.{
  ℕ, ◌+◌, ◌*◌, ◌%◌, ◌^◌, ◌<◌, ◌≤◌, ◌≡◌, refl, true, some, [], ◌∷◌, ◌++◌, arith, ◌∙◌, ap,
}
use fundroid.Compositor.{Resource, DrmState, callback_done, Compositor, Kernel}
use fundroid.Compositor.Render.{map_memory, mul_u16, mul_i32, to_usize}
use fundroid.Compositor.Render.Copied.{copy_pixels-whole}
use fundroid.Compositor.Handle.{known, argb8888, dispatch_clients}
use fundroid.Compositor.Handle.Show.{show_frame-shown}
use fundroid.TestClient.{gradient, draw_gradient, zeroed, first_requests, width, height, stride}
use fundroid.TestClient.Gradient.{draw_gradient-at}

module _ (k : Kernel) (c : Compositor) (drm : DrmState) (surface pool buffer callback : Resource)
    (fd fd' readable : ℕ) where
  -- The requests of the client, in the order in which it sends them, put its gradient on the screen:
  -- each pixel of the window that lies on it, up to the index that is the product of the two sizes of
  -- the screen as a u16, and the callback is answered, where the descriptor can be duplicated, the
  -- mapping shows what the client has drawn, all of which can be read, and the drm calls succeed.
  pub first_requests-shown :
      k.dup c.calls fd ≡ some fd'
      → k.mmap (c.calls + 1) (stride * height) fd' 0
        ≡ some (record { pixels = draw_gradient zeroed; readable = readable })
      → stride * height ≤ readable
      → c.drm_state ≡ some drm
      → k.map_dumb_buffer (c.calls + 1 + 1) ≡ true
      → k.set_crtc (c.calls + 1 + 1 + 1) ≡ true
      → (c' : Compositor) × (dispatch_clients k (first_requests surface pool buffer callback fd) c
          ≡ some c')
        × ((x y : ℕ)
            → x < width
            → y < height
            → x < drm.width
            → y * drm.width + x < mul_u16 drm.width drm.height
            → c'.framebuffer (y * drm.width + x) ≡ gradient x y)
        × (c'.sent ≡ c.sent ++ callback_done callback (k.now_millis (c.calls + 4) % 2 ^ 32) ∷ [])
  unfolding first_requests mul_i32 to_usize map_memory
  first_requests-shown dup maps reaches screen mapped shown =
      let s =
        show_frame-shown k c surface pool buffer fd (stride * height) 0 width height stride fd'
          (known argb8888) (record { pixels = draw_gradient zeroed; readable = readable }) drm
          callback dup maps reaches (omega arith, omega arith) screen mapped shown in
      (
        s.0,
        s.1,
        λ x y x_in y_in x_on reached.
            ap (λ f. f (y * drm.width + x)) s.2
            ∙ copy_pixels-whole _ refl (omega arith) x y x_in y_in drm (draw_gradient zeroed) x_on
                reached c.framebuffer
            ∙ draw_gradient-at x y x_in zeroed y_in,
        s.3,
      )
