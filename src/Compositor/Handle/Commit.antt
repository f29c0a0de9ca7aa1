-- ===== src/Compositor/Handle/Commit.antt =====
-- compositor-rs/src/main.rs: `wl_surface::Request::Commit`.
use fundroid.Prelude.{
  ℕ, ◌%◌, ◌^◌, ◌≡◌, ◌≢◌, refl, append-nil, sym, ◌∙◌, Option, none, some, List, [], ◌∷◌, ◌++◌, arith,
  ==_refl, subst,
}
use fundroid.Compositor.{Resource, SurfaceData, Event, callback_done, Compositor, Kernel, called}
use fundroid.Compositor.Render.{Rendered, rendered, failed, undefined, render_buffer}
use fundroid.Compositor.Render.Draws.{Draws, After, render_buffer-After}
use fundroid.Compositor.Handle.{
  commit, handle, commit_surface, render_attached, after_render, outcome, send_callback,
  take_callback, buffer_of, callback_of,
}

Draws-refl : (c : Compositor) → Draws c c
Draws-refl c = record {
  surfaces = refl;
  shm_pools = refl;
  buffers = refl;
  drm_state = refl;
  input_state = refl;
  sent = refl;
  beyond = λ drm i e h. refl;
}

outcome-Draws : (c c' : Compositor) (r : Rendered) → After c r → outcome r ≡ some c' → Draws c c'
unfolding outcome
outcome-Draws c c' (rendered d) (drawn, m) h = subst (Draws c) (cc) drawn
outcome-Draws c c' (failed d) (drawn, m) h = subst (Draws c) (cc) drawn
outcome-Draws c c' undefined a h = cc

pub render_attached-Draws :
    (k : Kernel) (o : Option ℕ) (c c' : Compositor) → render_attached k o c ≡ some c' → Draws c c'
unfolding render_attached
render_attached-Draws k none c c' h = subst (Draws c) (cc) (Draws-refl c)
render_attached-Draws k (some b) c c' h =
    outcome-Draws c c' (render_buffer k b c) (render_buffer-After k c b) h

-- The events for the callback, at the time that the call of this number gives.
abbrev pub notified : Kernel → ℕ → Option Resource → List Event
notified k n none = []
notified k n (some callback) = callback_done callback (k.now_millis n % 2 ^ 32) ∷ []

-- What a commit of the surface leaves.
pub record Committed (k : Kernel) (id : ℕ) (c c' : Compositor) : Type 0 where
  pub call : ℕ
  pub sent : c'.sent ≡ c.sent ++ notified k call (callback_of (c.surfaces id))
  pub taken : callback_of (c'.surfaces id) ≡ none
  pub buffer : buffer_of (c'.surfaces id) ≡ buffer_of (c.surfaces id)
  pub others : (j : ℕ) → j ≢ id → c'.surfaces j ≡ c.surfaces j

module _ (k : Kernel) (id : ℕ) (c : Compositor) where
  take_callback-Committed :
      (s : SurfaceData) (o : Option Resource)
      → c.surfaces id ≡ some s
      → s.frame_callback ≡ o
      → Committed k id c (take_callback k id s o c)
  unfolding take_callback called
  take_callback-Committed s none e p = record {
    call = 0;
    sent = rw (e, p) (sym (append-nil c.sent));
    taken = rw e p;
    buffer = refl;
    others = λ j h. refl;
  }
  take_callback-Committed s (some callback) e p = record {
    call = c.calls;
    sent = rw (e, p) refl;
    taken = rw (==_refl id) refl;
    buffer = rw (==_refl id, e) refl;
    others = λ j h. ground arith;
  }

  send_callback-Committed :
      (o : Option SurfaceData) → c.surfaces id ≡ o → Committed k id c (send_callback k id o c)
  unfolding send_callback
  send_callback-Committed none e = record {
    call = 0;
    sent = rw e (sym (append-nil c.sent));
    taken = rw e refl;
    buffer = refl;
    others = λ j h. refl;
  }
  send_callback-Committed (some s) e = take_callback-Committed s s.frame_callback e refl

module _ (k : Kernel) (id : ℕ) (c : Compositor) where
  behind_draw :
      (d : Compositor)
      → Draws c d
      → Committed k id d (send_callback k id (d.surfaces id) d)
      → Committed k id c (send_callback k id (d.surfaces id) d)
  behind_draw d drawn settled = record {
    call = settled.call;
    sent = settled.sent ∙ rw (drawn.sent, drawn.surfaces) refl;
    taken = settled.taken;
    buffer = settled.buffer ∙ rw drawn.surfaces refl;
    others = λ j h. settled.others j h ∙ rw drawn.surfaces refl;
  }

  rendered-Committed :
      (o : Option Compositor) (c' : Compositor)
      → ((d : Compositor) → o ≡ some d → Draws c d)
      → after_render k id o ≡ some c'
      → Committed k id c c'
  unfolding after_render
  rendered-Committed none c' drawn h = absurd (cc)
  rendered-Committed (some d) c' drawn h =
      subst (Committed k id c) (cc)
        (behind_draw d (drawn d refl) (send_callback-Committed k id d (d.surfaces id) refl))

-- A commit answers the frame callback that its surface waits for, once, and forgets it; it sends
-- nothing else, keeps the attached buffer, and leaves the other surfaces alone, whether the buffer
-- could be drawn or not.
pub commit-Committed :
    (k : Kernel) (surface : Resource) (c c' : Compositor)
    → handle k (commit surface) c ≡ some c'
    → Committed k surface.protocol_id c c'
unfolding handle commit_surface
commit-Committed k surface c c' h =
    let attached = buffer_of (c.surfaces surface.protocol_id) in
    rendered-Committed k surface.protocol_id c (render_attached k attached c) c'
      (render_attached-Draws k attached c) h
