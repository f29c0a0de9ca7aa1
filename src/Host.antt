-- ===== src/Host.antt =====
-- The machine that the daemon runs on. What the operating system and other programs answer is a
-- parameter: the n-th system call of a run has the n-th answers of a `Host`, and theorems range
-- over every host. Stat calls of the daemon's own files are answered from the disk of the state.
pub mod Fs
pub mod Os
pub mod Untouched
pub mod Unhindered
use fundroid.Prelude.{ℕ, zero, suc, ◌+◌, Bool, Option, none, some, List, if◌then◌else◌}
use fundroid.Prelude.Table.{Table}
use fundroid.Exec.{Result, ok, err, Exec}
use fundroid.Text.{Text}
use fundroid.Protocol.{Message, os_error, InstanceId}
use fundroid.Config.{CfctlDaemonConfig}
use fundroid.Files.{Slot, PathBuf, InstanceMetadata, Contents, Disk}

-- daemon/guest.rs: `ExitStatusInfo`. A signal number and an exit code are not negative.
pub record ExitStatusInfo : Type 0 where
  pub code : Option ℕ
  pub signal : Option ℕ

-- A program to run, with its arguments.
pub record Command : Type 0 where
  pub program : Text
  pub args : List Text

-- The guest's launcher, with its environment and working directory.
pub record GuestCommand : Type 0 where
  pub command : Command
  pub variables : List (Text × Text)
  pub current_dir : Option Text

pub record Output : Type 0 where
  pub status : ExitStatusInfo
  pub stdout : Text

-- An entry of a directory listing: whether it is a directory, and its name if that is Unicode.
pub record DirEntry : Type 0 where
  pub is_dir : Bool
  pub name : Option Text

pub data ReadDir : Type 0 where
  not_found : ReadDir
  refused : ReadDir
  entries : List (Option DirEntry) → ReadDir

-- How a blocking wait for a child ends.
pub data WaitEnd : Type 0 where
  never : WaitEnd
  wait_failed : WaitEnd
  ended : ExitStatusInfo → WaitEnd

-- The answers, by the number of the call. `parse_json` is serde_json's decoder.
pub record Host : Type 0 where
  pub fails : ℕ → Bool
  pub elapsed : ℕ → ℕ
  pub epoch : ℕ → Option ℕ
  pub leftover : ℕ → Option Contents
  pub survives : ℕ → Slot → Bool
  pub parse_json : Contents → Option InstanceMetadata
  pub read_dir : ℕ → ReadDir
  pub path_exists : ℕ → PathBuf → Bool
  pub log_text : ℕ → PathBuf → Text
  pub child_status : ℕ → ℕ → Option ExitStatusInfo
  pub wait_end : ℕ → ℕ → WaitEnd
  pub no_such_process : ℕ → Bool
  pub output : ℕ → Command → Option Output
  pub uid : Text → Option ℕ
  pub gid : Text → Option ℕ
  pub spawn_guest : ℕ → GuestCommand → Option ℕ
  pub received : ℕ → Bool
  pub pid : ℕ

-- A daemon on a machine.
pub record Env : Type 0 where
  pub host : Host
  pub open host use *
  pub config : CfctlDaemonConfig
  pub open config use *

-- daemon/guest.rs: a `GuestHandle` with its `ChildState`. `child` says that the state holds the
-- child; `locked` that the exit watcher waits for the child and holds the state's mutex meanwhile.
pub record GuestHandle : Type 0 where
  pub pid : ℕ
  pub child : Bool
  pub exit : Option ExitStatusInfo
  pub locked : Bool

-- What runs in a thread of its own.
pub data Task : Type 0 where
  exit_watcher : InstanceId → ℕ → Task
  finish_destroying : InstanceId → Task
  purge_trash : Slot → InstanceId → Task
  reset_permissions : Task

-- The directories of a guest under /tmp: cf_avd_0/cvd-<id>, cf_env_0/env-<id>, cf_img_0/cvd-<id>.
pub data TmpDir : Type 0 where
  cf_avd : TmpDir
  cf_env : TmpDir
  cf_img : TmpDir

-- `cache` is the manager's `metadata_cache`; `registry` the shared `GuestRegistry`, whose values
-- point into `handles`, as an `Arc` does. `tmp` says which directories under /tmp exist. `clock` is the monotonic clock, in milliseconds.
pub record World : Type 0 where
  pub calls : ℕ
  pub clock : ℕ
  pub disk : Disk
  pub tmp : TmpDir → InstanceId → Bool
  pub cache : Table InstanceMetadata
  pub registry : Table ℕ
  pub handles : ℕ → GuestHandle
  pub next_handle : ℕ
  pub background : List Task

abbrev pub Action : Type 0 → Type 0
Action = Exec World Message

-- A system call: it takes its number and some time.
abbrev pub tick : Env → World → World
tick env w = record w { calls = suc w.calls; clock = w.clock + env.elapsed w.calls }

-- A call that can fail, and does nothing but succeed or fail.
abbrev pub attempt_call : Env → Action (Unit {0})
attempt_call env w = (if env.fails w.calls then err (os_error w.calls) else ok tt, tick env w)
