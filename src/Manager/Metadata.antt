-- ===== src/Manager/Metadata.antt =====
-- cuttlefish/cfctl/src/daemon/manager.rs: an instance's metadata, in the cache and on disk, and its
-- env file.
pub mod Untouched
pub mod Finishes
pub mod Atomic
pub mod Source
pub mod Ends
pub mod Recorded
pub mod Port
use fundroid.Prelude.{
  ℕ, ◌+◌, ◌-◌, ◌%◌, ◌^◌, ◌++◌, String, false, Option, none, some, [], ◌∷◌, ◌==◌, if◌then◌else◌,
}
use fundroid.Prelude.Table
use fundroid.Exec.{Exec, Result, ok, pure, fail, modify, map_err, attempt, ◌>>=◌, ◌>>◌}
use fundroid.Text.{Text}
use fundroid.Text.Numbers.{show}
use fundroid.Protocol.{
  Message, plain, formatted, context, InstanceId, InstanceState, InstanceSummary, ErrorDetail,
}
use fundroid.Files.{
  external, InstanceMetadata, autogenerated, cuttlefish_boot_image, cuttlefish_init_boot_image,
  cuttlefish_base_instance_num, cuttlefish_adb_tcp_port, Contents, json, env_lines, text, root,
  artifacts, metadata_file, metadata_tmp, env_file, env_tmp,
}
use fundroid.Host.{Env, World, Action, attempt_call}
use fundroid.Host.Fs
use fundroid.Host.Os.{epoch_secs}

-- `format!("{host}:{port}")`.
unfoldable pub serial_of : Text → ℕ → Text
serial_of host port = host ++ (b':' ∷ show port)

unfoldable pub summary : Env → InstanceMetadata → InstanceSummary
summary env m = record {
  id = m.id;
  adb = some (record {
    host = env.adb_host;
    port = m.adb_port;
    serial = serial_of env.adb_host m.adb_port;
  });
  state = m.state;
}

unfoldable pub error_detail : String → Message → ErrorDetail
error_detail code message = record { code = code; message = some message }

-- `base_adb_port + id as u16 - 1`, in `u16`, wrapping as a release build does.
unfoldable pub adb_port_of : ℕ → InstanceId → ℕ
adb_port_of base id = ((base + id % 2 ^ 16) % 2 ^ 16 + 2 ^ 16 - 1) % 2 ^ 16

abbrev pub cache_insert : {E : Type 0} → InstanceId → InstanceMetadata → Exec World E (Unit {0})
cache_insert id m = modify λ w. record w { cache = Table.insert id m w.cache }

abbrev pub cache_remove : {E : Type 0} → InstanceId → Exec World E (Unit {0})
cache_remove id = modify λ w. record w { cache = Table.remove id w.cache }

-- A step by a manager of its own, whose cache starts empty and is dropped.
unfoldable pub by_new_manager : {E A : Type 0} → Exec World E A → Exec World E A
by_new_manager m w =
    let (r, v) = m (record w { cache = Table.empty }) in (r, record v { cache = w.cache })

parsed : Option InstanceMetadata → Action InstanceMetadata
parsed none = fail (plain "parsing metadata JSON")
parsed (some m) = pure m

unfoldable pub load_metadata : Env → InstanceId → Action InstanceMetadata
unfolding parsed
load_metadata env id = do
  c ←
      map_err (context (formatted "opening metadata file {}" (id ∷ [])))
        (Fs.read env metadata_file id)
  parsed (env.parse_json c)

from_cache : Option InstanceMetadata → Action InstanceMetadata → Action InstanceMetadata
from_cache none load = load
from_cache (some m) load = pure m

-- `InstanceManager::metadata`. A file that was read is not put into the cache.
unfoldable pub metadata : Env → InstanceId → Action InstanceMetadata
unfolding from_cache
metadata env id w = from_cache (w.cache id) (load_metadata env id) w

-- A file beside the target is written and renamed onto it.
unfoldable pub write_metadata : Env → InstanceId → InstanceMetadata → Action (Unit {0})
write_metadata env id m = do
  Fs.create_dir_all env root id
  Fs.write env metadata_tmp id (json m)
  Fs.rename env metadata_tmp metadata_file id

unfoldable pub env_contents : ℕ → InstanceMetadata → Contents
env_contents now m = env_lines (
    autogenerated now
    ∷ cuttlefish_boot_image m.boot_image
    ∷ cuttlefish_init_boot_image m.init_boot_image
    ∷ cuttlefish_base_instance_num m.id
    ∷ cuttlefish_adb_tcp_port m.adb_port
    ∷ [])

-- Creating the file, the clock, the lines, `sync_all`, the rename and `set_permissions`.
unfoldable pub write_env_file : Env → InstanceId → InstanceMetadata → Action (Unit {0})
write_env_file env id m = do
  Fs.write env env_tmp id (text [])
  now ← epoch_secs env
  Fs.write env env_tmp id (env_contents now m)
  attempt_call env
  Fs.rename env env_tmp env_file id
  attempt_call env

-- Metadata for an instance whose own cannot be read.
unfoldable pub fallback_metadata : Env → InstanceId → InstanceState → ℕ → InstanceMetadata
fallback_metadata env id state now = record {
  id = id;
  purpose = none;
  adb_port = adb_port_of env.base_adb_port id;
  state = state;
  boot_image = external env.default_boot_image;
  init_boot_image = external env.default_init_boot_image;
  created_at = now;
  updated_at = now;
  held = false;
}

marked : Env → InstanceId → InstanceState → ℕ → Result Message InstanceMetadata → InstanceMetadata
marked env id state now (ok m) = record m {
  state = state;
  updated_at = now;
  created_at = if m.created_at == 0 then now else m.created_at;
}
marked env id state now _ = fallback_metadata env id state now

-- Errors of the artifacts directory and of the env file are dropped.
unfoldable pub mark_metadata_state : Env → InstanceId → InstanceState → Action InstanceMetadata
unfolding marked
mark_metadata_state env id state = do
  now ← epoch_secs env
  old ← attempt (metadata env id)
  let m = marked env id state now old
  Fs.create_dir_all env root id
  attempt {F = Message} (Fs.create_dir_all env artifacts id)
  write_metadata env id m
  attempt {F = Message} (write_env_file env id m)
  cache_insert id m
  pure m
