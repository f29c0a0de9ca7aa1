-- ===== src/Files.antt =====
-- cuttlefish/cfctl/src/daemon/manager.rs: the files that the daemon keeps, by their role and the
-- instance that they belong to, and what stands in them. The base directories of the settings are
-- taken to be distinct, so that files of two roles or of two instances are two files.
use fundroid.Prelude.{ℕ, Bool, true, false, ◌&&◌, Option, none, some, List, ◌==◌, if◌then◌else◌}
use fundroid.Text.{Text}
use fundroid.Protocol.{InstanceId, InstanceState}

-- `InstancePaths`, with the files below its directories, the host's directories of the guest and
-- the file with the next id.
pub data Slot : Type 0 where
  root artifacts boot_artifact init_boot_artifact : Slot
  metadata_file metadata_tmp run_log console_snapshot : Slot
  env_file env_tmp : Slot
  instance_dir assembly_dir : Slot
  id_alloc : Slot

abbrev pub slot_code : Slot → ℕ
slot_code root = 0
slot_code artifacts = 1
slot_code boot_artifact = 2
slot_code init_boot_artifact = 3
slot_code metadata_file = 4
slot_code metadata_tmp = 5
slot_code run_log = 6
slot_code console_snapshot = 7
slot_code env_file = 8
slot_code env_tmp = 9
slot_code instance_dir = 10
slot_code assembly_dir = 11
slot_code id_alloc = 12

abbrev pub slot_eq : Slot → Slot → Bool
slot_eq a b = slot_code a == slot_code b

-- The directory, of the same instance, that a file stands in.
abbrev pub parent : Slot → Option Slot
parent artifacts = some root
parent boot_artifact = some artifacts
parent init_boot_artifact = some artifacts
parent metadata_file = some root
parent metadata_tmp = some root
parent run_log = some root
parent console_snapshot = some root
parent _ = none

-- What `remove_dir_all` of an instance's root takes away.
abbrev pub under_root : Slot → Bool
under_root root = true
under_root artifacts = true
under_root boot_artifact = true
under_root init_boot_artifact = true
under_root metadata_file = true
under_root metadata_tmp = true
under_root run_log = true
under_root console_snapshot = true
under_root _ = false

-- A path outside of the daemon's own files, or one of those.
pub data PathBuf : Type 0 where
  external : Text → PathBuf
  inside : Slot → InstanceId → PathBuf

pub record InstanceMetadata : Type 0 where
  pub id : InstanceId
  pub purpose : Option Text
  pub adb_port : ℕ
  pub state : InstanceState
  pub boot_image : PathBuf
  pub init_boot_image : PathBuf
  pub created_at : ℕ
  pub updated_at : ℕ
  pub held : Bool

-- A line of an instance's env file.
pub data EnvLine : Type 0 where
  autogenerated : ℕ → EnvLine
  cuttlefish_boot_image : PathBuf → EnvLine
  cuttlefish_init_boot_image : PathBuf → EnvLine
  cuttlefish_base_instance_num : ℕ → EnvLine
  cuttlefish_adb_tcp_port : ℕ → EnvLine

-- `json m` are the bytes that serde_json writes for `m`; `copy_of` what `fs::copy` read.
pub data Contents : Type 0 where
  json : InstanceMetadata → Contents
  env_lines : List EnvLine → Contents
  text : Text → Contents
  copy_of : Text → Contents

pub data Node : Type 0 where
  dir : Node
  file : Contents → Node

abbrev pub Disk : Type 0
Disk = Slot → InstanceId → Option Node

abbrev pub place : Slot → InstanceId → Option Node → Disk → Disk
place s i n d t j = if slot_eq t s && j == i then n else d t j
