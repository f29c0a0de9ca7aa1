-- ===== src/Compositor.antt =====
-- compositor-rs/src/main.rs: the state of the compositor, the kernel that it calls, and the events
-- that it sends.
pub mod Render
pub mod Handle
pub mod Events
pub mod Setup
use fundroid.Prelude.{ℕ, ◌+◌, Bool, Option, List}
use fundroid.Prelude.Table.{Table}

-- An object of a client's connection: clients number their objects themselves.
pub record Resource : Type 0 where
  pub client : ℕ
  pub protocol_id : ℕ

pub record ShmPoolData : Type 0 where
  pub fd : ℕ
  pub size : ℕ

-- The i32 are their residues below 2 ^ 32.
pub record BufferData : Type 0 where
  pub pool_id : ℕ
  pub offset : ℕ
  pub width : ℕ
  pub height : ℕ
  pub stride : ℕ
  pub format : ℕ

pub record SurfaceData : Type 0 where
  pub buffer_id : Option ℕ
  pub frame_callback : Option Resource

-- The size of the mode, two u16.
pub record DrmState : Type 0 where
  pub width : ℕ
  pub height : ℕ

pub record InputState : Type 0 where
  pub focused_surface : Option ℕ
  pub pointer_resource : Option Resource
  pub keyboard_resource : Option Resource

pub data Event : Type 0 where
  callback_done : (callback : Resource) (time : ℕ) → Event
  key : (keyboard : Resource) (serial time code : ℕ) (pressed : Bool) → Event
  capabilities : Resource → Event
  seat_name : Resource → Event
  shm_format : Resource → ℕ → Event

-- `CompositorState`; the pixels of the framebuffer; the events that were sent, the descriptors that
-- were closed, how many mappings of clients' memory there are, and how many calls were made.
pub record Compositor : Type 0 where
  pub surfaces : Table SurfaceData
  pub shm_pools : Table ShmPoolData
  pub buffers : Table BufferData
  pub drm_state : Option DrmState
  pub input_state : InputState
  pub framebuffer : ℕ → ℕ
  pub sent : List Event
  pub closed : List ℕ
  pub mappings : ℕ
  pub calls : ℕ

-- A mapping of a client's memory, as pixels, and how many of its bytes can be read: behind the last
-- page of the client's file they cannot.
pub record Mapping : Type 0 where
  pub pixels : ℕ → ℕ
  pub readable : ℕ

-- What the calls of the kernel answer; the first argument is the number of the call.
pub record Kernel : Type 0 where
  pub mmap : (call size fd offset : ℕ) → Option Mapping
  pub map_dumb_buffer : ℕ → Bool
  pub set_crtc : ℕ → Bool
  pub dup : ℕ → ℕ → Option ℕ
  pub now_millis : ℕ → ℕ

unfoldable pub called : Compositor → Compositor
called c = record c { calls = c.calls + 1 }
