-- ===== src/Compositor/Handle.antt =====
-- compositor-rs/src/main.rs: the requests of the clients, the `Dispatch` and `GlobalDispatch` of
-- each interface.
pub mod Commit
pub mod Undrawn
pub mod Safe
pub mod Sequence
pub mod Show
use fundroid.Prelude.{
  ℕ, ◌+◌, ◌%◌, ◌^◌, Option, none, some, List, [], ◌∷◌, ◌++◌, ◌==◌, if◌then◌else◌,
}
use fundroid.Prelude.Table
use fundroid.Compositor.{
  Resource, ShmPoolData, BufferData, SurfaceData, InputState, Event, callback_done, capabilities,
  seat_name, shm_format, Compositor, Kernel, called,
}
use fundroid.Compositor.Render.{Rendered, rendered, failed, undefined, render_buffer}

-- `WEnum`: a value that the protocol knows, or another number.
pub data WEnum : Type 0 where
  known : ℕ → WEnum
  unknown : ℕ → WEnum

abbrev pub argb8888 : ℕ
argb8888 = 0

abbrev pub xrgb8888 : ℕ
xrgb8888 = 1

unfoldable pub into_format : WEnum → ℕ
into_format (known f) = f
into_format (unknown n) = argb8888

-- The requests, with the object that each is sent to; `other` are those that are ignored or only
-- logged (regions, damage, cursors, releases, surfaces that are created).
pub data Request : Type 0 where
  attach : (surface : Resource) (buffer : Option Resource) → Request
  commit : (surface : Resource) → Request
  frame : (surface callback : Resource) → Request
  create_pool : (id : Resource) (fd size : ℕ) → Request
  create_buffer : (pool id : Resource) (offset width height stride : ℕ) (format : WEnum) → Request
  resize : (pool : Resource) (size : ℕ) → Request
  destroy_buffer : (buffer : Resource) → Request
  get_pointer : (id : Resource) → Request
  get_keyboard : (id : Resource) → Request
  bind_seat : (seat : Resource) → Request
  bind_shm : (shm : Resource) → Request
  other : Request

abbrev pub fresh_surface : SurfaceData
fresh_surface = record { buffer_id = none; frame_callback = none }

-- `entry(..).or_insert(..)`.
abbrev pub or_insert : Option SurfaceData → SurfaceData
or_insert none = fresh_surface
or_insert (some s) = s

abbrev pub buffer_of : Option SurfaceData → Option ℕ
buffer_of none = none
buffer_of (some s) = s.buffer_id

abbrev pub callback_of : Option SurfaceData → Option Resource
callback_of none = none
callback_of (some s) = s.frame_callback

abbrev pub protocol_id_of : Option Resource → Option ℕ
protocol_id_of none = none
protocol_id_of (some r) = some r.protocol_id

abbrev pub set_surface : ℕ → SurfaceData → Compositor → Compositor
set_surface id s c = record c { surfaces = Table.insert id s c.surfaces }

abbrev send : Event → Compositor → Compositor
send e c = record c { sent = c.sent ++ e ∷ [] }

-- `frame_callback.take()` and `done`.
pub take_callback : Kernel → ℕ → SurfaceData → Option Resource → Compositor → Compositor
take_callback k id s none c = c
take_callback k id s (some callback) c =
    send (callback_done callback (k.now_millis c.calls % 2 ^ 32))
      (called (set_surface id (record s { frame_callback = none }) c))

pub send_callback : Kernel → ℕ → Option SurfaceData → Compositor → Compositor
unfolding take_callback called
send_callback k id none c = c
send_callback k id (some s) c = take_callback k id s s.frame_callback c

-- The state behind a rendering: an error is only logged; `none` after undefined behaviour.
unfoldable pub outcome : Rendered → Option Compositor
outcome (rendered c) = some c
outcome (failed c) = some c
outcome undefined = none

pub render_attached : Kernel → Option ℕ → Compositor → Option Compositor
unfolding outcome
render_attached k none c = some c
render_attached k (some buffer_id) c = outcome (render_buffer k buffer_id c)

after_render : Kernel → ℕ → Option Compositor → Option Compositor
unfolding send_callback
after_render k id none = none
after_render k id (some c) = some (send_callback k id (c.surfaces id) c)

unfoldable pub commit_surface : Kernel → ℕ → Compositor → Option Compositor
unfolding render_attached after_render
commit_surface k id c = after_render k id (render_attached k (buffer_of (c.surfaces id)) c)

-- `insert` drops the pool that was there, which closes its descriptor.
closing : Option ShmPoolData → List ℕ
closing none = []
closing (some pool) = pool.fd ∷ []

store_pool : ℕ → ℕ → Option ℕ → Compositor → Compositor
unfolding closing
store_pool id size none c = c
store_pool id size (some fd) c = record c {
  shm_pools = Table.insert id (record { fd = fd; size = size }) c.shm_pools;
  closed = c.closed ++ closing (c.shm_pools id);
}

resize_pool : ℕ → ℕ → Option ShmPoolData → Compositor → Compositor
resize_pool id size none c = c
resize_pool id size (some pool) c = record c {
  shm_pools = Table.insert id (record pool { size = size }) c.shm_pools;
}

attach_buffer : ℕ → Option Resource → Compositor → Compositor
attach_buffer id buffer c =
    set_surface id (record (or_insert (c.surfaces id)) { buffer_id = protocol_id_of buffer }) c

request_frame : ℕ → Resource → Compositor → Compositor
request_frame id callback c =
    set_surface id (record (or_insert (c.surfaces id)) { frame_callback = some callback }) c

-- The size and the place in the pool are taken as the client gives them.
store_buffer : ℕ → BufferData → Compositor → Compositor
store_buffer id b c = record c { buffers = Table.insert id b c.buffers }

remove_buffer : ℕ → Compositor → Compositor
remove_buffer id c = record c { buffers = Table.remove id c.buffers }

set_pointer : Resource → Compositor → Compositor
set_pointer id c = record c { input_state = record c.input_state { pointer_resource = some id } }

set_keyboard : Resource → Compositor → Compositor
set_keyboard id c = record c { input_state = record c.input_state { keyboard_resource = some id } }

announce_seat : Resource → Compositor → Compositor
announce_seat seat c = record c { sent = c.sent ++ capabilities seat ∷ seat_name seat ∷ [] }

announce_shm : Resource → Compositor → Compositor
announce_shm shm c = record c {
  sent = c.sent ++ shm_format shm argb8888 ∷ shm_format shm xrgb8888 ∷ [];
}

unfoldable pub handle : Kernel → Request → Compositor → Option Compositor
unfolding commit_surface store_pool resize_pool called attach_buffer request_frame store_buffer
    remove_buffer set_pointer set_keyboard announce_seat announce_shm
handle k (attach surface buffer) c = some (attach_buffer surface.protocol_id buffer c)
handle k (commit surface) c = commit_surface k surface.protocol_id c
handle k (frame surface callback) c = some (request_frame surface.protocol_id callback c)
handle k (create_pool id fd size) c =
    some (store_pool id.protocol_id size (k.dup c.calls fd) (called c))
handle k (create_buffer pool id offset width height stride format) c = some (
    store_buffer id.protocol_id
      (record {
        pool_id = pool.protocol_id;
        offset = offset;
        width = width;
        height = height;
        stride = stride;
        format = into_format format;
      })
      c)
handle k (resize pool size) c =
    some (resize_pool pool.protocol_id size (c.shm_pools pool.protocol_id) c)
handle k (destroy_buffer buffer) c = some (remove_buffer buffer.protocol_id c)
handle k (get_pointer id) c = some (set_pointer id c)
handle k (get_keyboard id) c = some (set_keyboard id c)
handle k (bind_seat seat) c = some (announce_seat seat c)
handle k (bind_shm shm) c = some (announce_shm shm c)
handle k other c = some c

-- The requests of one `dispatch_clients`, in their order.
unfoldable pub dispatch_clients : Kernel → List Request → Compositor → Option Compositor
dispatch_clients k [] c = some c
dispatch_clients k (r ∷ rs) c = elim (handle k r c) [
  | none ↦ none
  | some c' ↦ dispatch_clients k rs c'
]
