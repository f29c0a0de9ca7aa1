-- ===== src/Compositor/Handle/Safe.antt =====
-- compositor-rs/src/main.rs: which buffers can be drawn without reading behind the mapping.
use fundroid.Prelude.{
  ℕ, ◌≡◌, ◌≢◌, refl, ◌∙◌, subst, Option, none, some, List, [], ◌∷◌, arith, Bool-cases, inl, inr,
  ◌==◌,
}
use fundroid.Prelude.Table
use fundroid.Compositor.{Resource, ShmPoolData, BufferData, SurfaceData, Compositor, Kernel, called}
use fundroid.Compositor.Render.{Rendered, rendered, failed, undefined, render_buffer}
use fundroid.Compositor.Render.Fits.{Backed, Sound, render_buffer-defined}
use fundroid.Compositor.Handle.{
  Request, attach, commit, frame, create_pool, create_buffer, resize, destroy_buffer, get_pointer,
  get_keyboard, bind_seat, bind_shm, other, handle, commit_surface, render_attached, after_render,
  send_callback, take_callback, store_pool, resize_pool, buffer_of, dispatch_clients, outcome,
}
use fundroid.Compositor.Handle.Commit.{render_attached-Draws}

abbrev pub SoundRequest : Request → Type 0
SoundRequest (create_buffer pool id offset width height stride format) = Sound width height stride
SoundRequest _ = Unit

abbrev pub SoundRequests : List Request → Type 0
SoundRequests [] = Unit
SoundRequests (r ∷ rs) = SoundRequest r × SoundRequests rs

abbrev pub SoundBuffers : Compositor → Type 0
SoundBuffers c = (id : ℕ) (b : BufferData) → c.buffers id ≡ some b → Sound b.width b.height b.stride

module _ (k : Kernel) (backed : Backed k) (c : Compositor) (sound : SoundBuffers c) where
  outcome-defined : (r : Rendered) → r ≢ undefined → (d : Compositor) × (outcome r ≡ some d)
  unfolding outcome
  outcome-defined (rendered d) defined = (d, refl)
  outcome-defined (failed d) defined = (d, refl)
  outcome-defined undefined defined = absurd (defined refl)

  attached-defined : (o : Option ℕ) → (d : Compositor) × (render_attached k o c ≡ some d)
  unfolding render_attached
  attached-defined none = (c, refl)
  attached-defined (some id) =
      outcome-defined (render_buffer k id c) (render_buffer-defined k backed c id (sound id))

  -- The result of a request: no undefined behaviour, and the buffers are sound again.
  abbrev Defined : Option Compositor → Type 0
  Defined o = (d : Compositor) × (o ≡ some d) × SoundBuffers d

  send_callback-buffers :
      (id : ℕ) (o : Option SurfaceData) (d : Compositor)
      → (send_callback k id o d).buffers ≡ d.buffers
  unfolding send_callback
  send_callback-buffers id none d = refl
  send_callback-buffers id (some s) d = take s.frame_callback
    where
      take : (o : Option Resource) → (take_callback k id s o d).buffers ≡ d.buffers
      take none = refl
      take (some r) = refl

  same_buffers : (d : Compositor) → d.buffers ≡ c.buffers → SoundBuffers d
  same_buffers d e id b h = sound id b (rw (← e) h)

  commit-Defined : (id : ℕ) → Defined (commit_surface k id c)
  unfolding commit_surface after_render
  commit-Defined id =
      let (d, e) = attached-defined (buffer_of (c.surfaces id)) in
      let drawn = render_attached-Draws k (buffer_of (c.surfaces id)) c d e in
      (
        send_callback k id (d.surfaces id) d,
        rw e refl,
        same_buffers (send_callback k id (d.surfaces id) d)
            (send_callback-buffers id (d.surfaces id) d ∙ drawn.buffers),
      )

  store_pool-buffers :
      (id size : ℕ) (o : Option ℕ) → (store_pool id size o (called c)).buffers ≡ c.buffers
  unfolding store_pool called
  store_pool-buffers id size none = refl
  store_pool-buffers id size (some fd) = refl

  resize_pool-buffers :
      (id size : ℕ) (o : Option ShmPoolData) → (resize_pool id size o c).buffers ≡ c.buffers
  unfolding resize_pool
  resize_pool-buffers id size none = refl
  resize_pool-buffers id size (some p) = refl

  insert-Sound :
      (id j : ℕ) (n b : BufferData)
      → Sound n.width n.height n.stride
      → Table.insert id n c.buffers j ≡ some b
      → Sound b.width b.height b.stride
  insert-Sound id j n b fits h = elim (Bool-cases (j == id)) [
    | inl same ↦ let e : n ≡ b = ground arith in subst (λ x. Sound x.width x.height x.stride) e fits
    | inr another ↦ sound j b (ground arith)
  ]

  handle-Defined : (r : Request) → SoundRequest r → Defined (handle k r c)
  unfolding handle
  handle-Defined (commit surface) fits = commit-Defined surface.protocol_id
  handle-Defined (create_pool id fd size) fits = (
    _,
    refl,
    same_buffers (store_pool id.protocol_id size (k.dup c.calls fd) (called c))
        (store_pool-buffers id.protocol_id size (k.dup c.calls fd)),
  )
  handle-Defined (resize pool size) fits = (
    _,
    refl,
    same_buffers (resize_pool pool.protocol_id size (c.shm_pools pool.protocol_id) c)
        (resize_pool-buffers pool.protocol_id size (c.shm_pools pool.protocol_id)),
  )
  handle-Defined (create_buffer pool id offset width height stride format) fits =
      (_, refl, λ j b h. insert-Sound id.protocol_id j _ b fits h)
  handle-Defined (destroy_buffer buffer) fits = (_, refl, λ j b h. sound j b (ground arith))
  handle-Defined (attach surface buffer) fits = (_, refl, sound)
  handle-Defined (frame surface callback) fits = (_, refl, sound)
  handle-Defined (get_pointer id) fits = (_, refl, sound)
  handle-Defined (get_keyboard id) fits = (_, refl, sound)
  handle-Defined (bind_seat seat) fits = (_, refl, sound)
  handle-Defined (bind_shm shm) fits = (_, refl, sound)
  handle-Defined other fits = (_, refl, sound)

-- Clients that only create buffers whose rows do not overlap and whose size is an i32, in files that
-- reach as far as what is mapped of them, never lead the compositor into undefined behaviour, whatever
-- else they ask for and whatever else the kernel answers.
pub dispatch_clients-Defined :
    (k : Kernel) (rs : List Request) (c : Compositor)
    → Backed k
    → SoundBuffers c
    → SoundRequests rs
    → (c' : Compositor) × (dispatch_clients k rs c ≡ some c') × SoundBuffers c'
unfolding dispatch_clients
dispatch_clients-Defined k [] c backed sound fits = (c, refl, sound)
dispatch_clients-Defined k (r ∷ rs) c backed sound (fit, fits) =
    let (d, e, sound') = handle-Defined k backed c sound r fit in
    rw (e, dispatch_clients) (dispatch_clients-Defined k rs d backed sound' fits)
