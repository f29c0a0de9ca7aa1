-- ===== src/Compositor/Handle/Undrawn.antt =====
-- compositor-rs/src/main.rs: the pixels behind the end of the framebuffer's slice.
use fundroid.Prelude.{
  ℕ, ◌≤◌, ◌≡◌, refl, ◌∙◌, Option, none, some, List, [], ◌∷◌, arith, subst, ap, Option-cases, inl,
  inr,
}
use fundroid.Compositor.{Resource, ShmPoolData, SurfaceData, DrmState, Compositor, Kernel, called}
use fundroid.Compositor.Render.{mul_u16}
use fundroid.Compositor.Render.Draws.{Draws}
use fundroid.Compositor.Handle.{
  Request, attach, commit, frame, create_pool, create_buffer, resize, destroy_buffer, get_pointer,
  get_keyboard, bind_seat, bind_shm, other, handle, commit_surface, after_render, send_callback,
  take_callback, store_pool, resize_pool, dispatch_clients,
}
use fundroid.Compositor.Handle.Commit.{render_attached-Draws}

module _ (k : Kernel) (drm : DrmState) (i : ℕ) (behind : mul_u16 drm.width drm.height ≤ i) where
  -- The screen is the same, and so is the pixel.
  record Same (c c' : Compositor) : Type 0 where
    screen : c.drm_state ≡ some drm → c'.drm_state ≡ some drm
    pixel : c.drm_state ≡ some drm → c'.framebuffer i ≡ c.framebuffer i

  kept : {c d : Compositor} → d.drm_state ≡ c.drm_state → d.framebuffer ≡ c.framebuffer → Same c d
  kept screen pixels = record { screen = λ e. screen ∙ e; pixel = λ e. ap (λ fb. fb i) pixels }

  Draws-Same : (c d : Compositor) → Draws c d → Same c d
  Draws-Same c d drawn = record {
    screen = λ e. drawn.drm_state ∙ e;
    pixel = λ e. drawn.beyond drm i e behind;
  }

  Same-trans : (c d e : Compositor) → Same c d → Same d e → Same c e
  Same-trans c d e p q = record {
    screen = λ h. q.screen (p.screen h);
    pixel = λ h. q.pixel (p.screen h) ∙ p.pixel h;
  }

  send_callback-Same :
      (id : ℕ) (o : Option SurfaceData) (c : Compositor) → Same c (send_callback k id o c)
  unfolding send_callback
  send_callback-Same id none c = kept refl refl
  send_callback-Same id (some s) c = take_callback-Same s.frame_callback
    where
      take_callback-Same : (o : Option Resource) → Same c (take_callback k id s o c)
      take_callback-Same none = kept refl refl
      take_callback-Same (some r) = kept refl refl

  after_render-Same :
      (id : ℕ) (o : Option Compositor) (c c' : Compositor)
      → ((d : Compositor) → o ≡ some d → Draws c d)
      → after_render k id o ≡ some c'
      → Same c c'
  unfolding after_render
  after_render-Same id none c c' drawn h = absurd (cc)
  after_render-Same id (some d) c c' drawn h = subst (Same c) (cc) (
      Same-trans c d (send_callback k id (d.surfaces id) d) (Draws-Same c d (drawn d refl))
        (send_callback-Same id (d.surfaces id) d))

  store_pool-Same : (id size : ℕ) (o : Option ℕ) (c : Compositor) → Same c (store_pool id size o c)
  unfolding store_pool
  store_pool-Same id size none c = kept refl refl
  store_pool-Same id size (some fd) c = kept refl refl

  resize_pool-Same :
      (id size : ℕ) (o : Option ShmPoolData) (c : Compositor) → Same c (resize_pool id size o c)
  unfolding resize_pool
  resize_pool-Same id size none c = kept refl refl
  resize_pool-Same id size (some p) c = kept refl refl

  result-Same : (c c' d : Compositor) → Same c d → some d ≡ some c' → Same c c'
  result-Same c c' d p h = subst (Same c) (cc) p

  handle-Same : (r : Request) (c c' : Compositor) → handle k r c ≡ some c' → Same c c'
  unfolding handle commit_surface called
  handle-Same (commit surface) c c' h =
      after_render-Same surface.protocol_id _ c c' (render_attached-Draws k _ c) h
  handle-Same (create_pool id fd size) c c' h =
      result-Same c c' _
        (Same-trans c (called c) _ (kept refl refl)
          (store_pool-Same id.protocol_id size (k.dup c.calls fd) (called c)))
        h
  handle-Same (resize pool size) c c' h =
      result-Same c c' _ (resize_pool-Same pool.protocol_id size _ c) h
  handle-Same (attach surface buffer) c c' h = result-Same c c' _ (kept refl refl) h
  handle-Same (frame surface callback) c c' h = result-Same c c' _ (kept refl refl) h
  handle-Same (create_buffer pool id offset width height stride format) c c' h =
      result-Same c c' _ (kept refl refl) h
  handle-Same (destroy_buffer buffer) c c' h = result-Same c c' _ (kept refl refl) h
  handle-Same (get_pointer id) c c' h = result-Same c c' _ (kept refl refl) h
  handle-Same (get_keyboard id) c c' h = result-Same c c' _ (kept refl refl) h
  handle-Same (bind_seat seat) c c' h = result-Same c c' _ (kept refl refl) h
  handle-Same (bind_shm shm) c c' h = result-Same c c' _ (kept refl refl) h
  handle-Same other c c' h = result-Same c c' _ (kept refl refl) h

  dispatch-Same :
      (rs : List Request) (c c' : Compositor) → dispatch_clients k rs c ≡ some c' → Same c c'
  unfolding dispatch_clients
  dispatch-Same [] c c' h = result-Same c c' c (kept refl refl) h
  dispatch-Same (r ∷ rs) c c' h = elim (Option-cases (handle k r c)) [
    | inl crash ↦ absurd (ground arith)
    | inr (d, e) ↦ Same-trans c d c' (handle-Same r c d e) (dispatch-Same rs d c' (ground arith))
  ]

  -- Whatever the clients ask for, no pixel is ever drawn whose index is not below the product of
  -- the two sizes of the mode as a u16: 45056 for 640 by 480, where the screen has 307200 pixels.
  pub dispatch_clients-undrawn :
      (rs : List Request) (c c' : Compositor)
      → c.drm_state ≡ some drm
      → dispatch_clients k rs c ≡ some c'
      → c'.framebuffer i ≡ c.framebuffer i
  dispatch_clients-undrawn rs c c' screen h = (dispatch-Same rs c c' h).pixel screen
