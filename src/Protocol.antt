-- ===== src/Protocol.antt =====
-- cuttlefish/cfctl/src/protocol.rs: the requests and the responses of the daemon's socket.
-- A text that the code builds by `format!` or takes from an error is kept as a `Message`, the
-- format string and what goes into it; serde's JSON form is a third party's.
pub mod Reply
use fundroid.Prelude.{ℕ, String, Bool, List, Option, ◌==◌}
use fundroid.Text.{Text}
use fundroid.Text.Numbers.{Pid}

-- The text of an error or of a formatted message. `os_error n` is the error of system call `n`.
pub data Message : Type 0 where
  plain : String → Message
  formatted : String → List ℕ → Message
  quoting : String → List Text → Message
  os_error : ℕ → Message
  context : Message → Message → Message

abbrev pub InstanceId : Type 0
InstanceId = ℕ

pub data InstanceState : Type 0 where
  unknown created starting running stopped failed destroyed : InstanceState

abbrev pub state_code : InstanceState → ℕ
state_code unknown = 0
state_code created = 1
state_code starting = 2
state_code running = 3
state_code stopped = 4
state_code failed = 5
state_code destroyed = 6

-- The derived `PartialEq`.
abbrev pub state_eq : InstanceState → InstanceState → Bool
state_eq a b = state_code a == state_code b

pub record AdbInfo : Type 0 where
  pub host : Text
  pub port : ℕ
  pub serial : Text

pub record InstanceSummary : Type 0 where
  pub id : InstanceId
  pub adb : Option AdbInfo
  pub state : InstanceState

pub record CreateInstanceResponse : Type 0 where
  pub summary : InstanceSummary

pub record BootVerificationResult : Type 0 where
  pub adb_ready : Bool
  pub boot_marker_observed : Bool
  pub failure_reason : Option Message

pub record CleanupSummary : Type 0 where
  pub guest_processes_killed : Bool
  pub remaining_pids : List Pid
  pub steps : List String

pub record InstanceActionResponse : Type 0 where
  pub summary : InstanceSummary
  pub journal_tail : Option Text
  pub verification : Option BootVerificationResult
  pub cleanup : Option CleanupSummary
  pub run_log_tail : Option Text
  pub console_snapshot_path : Option Text

pub record LogsResponse : Type 0 where
  pub journal : Option Text
  pub console_log_path : Option Text

pub record DeployRequest : Type 0 where
  pub id : InstanceId
  pub boot_image : Option Text
  pub init_boot_image : Option Text

pub record StartOptions : Type 0 where
  pub disable_webrtc : Bool
  pub timeout_secs : Option ℕ
  pub verify_boot : Bool
  pub skip_adb_wait : Bool
  pub track : Option Text

pub record DestroyOptions : Type 0 where
  pub timeout_secs : Option ℕ

pub record LogsOptions : Type 0 where
  pub timeout_secs : Option ℕ
  pub stream_stdout : Bool

pub record ErrorDetail : Type 0 where
  pub code : String
  pub message : Option Message

pub data Request : Type 0 where
  create_instance : Option Text → Request
  start_instance : InstanceId → StartOptions → Request
  create_start_instance : Option Text → StartOptions → Request
  stop_instance : InstanceId → Request
  hold_instance : InstanceId → Request
  destroy_instance : InstanceId → DestroyOptions → Request
  deploy : DeployRequest → Request
  wait_for_adb : InstanceId → Option ℕ → Request
  logs : InstanceId → Option ℕ → LogsOptions → Request
  status : InstanceId → Request
  describe : InstanceId → Option ℕ → Request
  list_instances : Request
  prune_expired : ℕ → Request
  prune_all : Request
