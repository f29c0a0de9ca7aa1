-- ===== src/Manager/Cleanup.antt =====
-- cuttlefish/cfctl/src/daemon/manager.rs: taking a guest's processes, devices and directories off
-- the host. The errors of the programs that do it are logged by the code, and dropped.
pub mod Settled
pub mod Trash
pub mod Untouched
pub mod Finishes
pub mod Overlap
use fundroid.Prelude.{
  ℕ, zero, suc, ◌+◌, ◌-◌, ◌++◌, ◌^◌, String, Bool, true, false, ◌||◌, ◌&&◌, not, Option, none, some,
  List, [], ◌∷◌, leb, ltb, ◌==◌, if◌then◌else◌, is_empty,
}
use fundroid.Exec.{Result, ok, err, stuck, pure, fail, attempt, map_err, ◌>>=◌, ◌>>◌}
use fundroid.Text.{Text, codes, lines, trim}
use fundroid.Text.Numbers.{show, Pid, plain, negative, parse_i32}
use fundroid.Protocol.{Message, formatted, quoting, os_error, context, InstanceId, CleanupSummary}
use fundroid.Files.{Slot, instance_dir, assembly_dir, place}
use fundroid.Host.{
  Env, Action, Command, Output, purge_trash, reset_permissions, tick, attempt_call, World, TmpDir,
  cf_avd, cf_env, cf_img,
}
use fundroid.Host.Fs
use fundroid.Host.Os.{epoch_secs, sleep_ms, run, spawn}
use fundroid.Guest.{success}

-- A literal argument of a command.
unfoldable pub lit : String → Text
lit s = codes s

unfoldable pub command : String → List Text → Command
command program args = record { program = lit program; args = args }

pub record CleanupOutcome : Type 0 where
  pub guest_processes_killed : Bool
  pub remaining_pids : List Pid
  pub steps : List String

unfoldable pub from_parts : List Pid → List String → CleanupOutcome
from_parts remaining steps = record {
  guest_processes_killed = is_empty remaining;
  remaining_pids = remaining;
  steps = steps;
}

unfoldable pub cleanup_summary : CleanupOutcome → CleanupSummary
cleanup_summary o = record {
  guest_processes_killed = o.guest_processes_killed;
  remaining_pids = o.remaining_pids;
  steps = o.steps;
}

-- util.rs: `run_command_allow_failure`.
unfoldable pub run_command_allow_failure : Env → Command → Action (Unit {0})
run_command_allow_failure env c = do
  out ← run env c
  if success out.status
      then pure tt
      else fail (quoting "command {:?} {:?} exited with {}" (c.program ∷ c.args))

-- util.rs: `run_command_capture`.
unfoldable pub run_command_capture : Env → Command → Action Text
run_command_capture env c = do
  out ← map_err (context (quoting "launching {} {:?}" (c.program ∷ c.args))) (run env c)
  if success out.status
      then pure out.stdout
      else fail (quoting "command {:?} {:?} failed: {}" (c.program ∷ c.args))

-- A step whose error is logged and dropped.
abbrev pub ignoring : Action (Unit {0}) → Action (Unit {0})
ignoring m = do attempt {F = Message} m; pure tt

unfoldable pub guest_process_patterns : InstanceId → List Text
guest_process_patterns id =
    (lit "--instance_dir=/var/lib/cuttlefish/instances/" ++ show id)
    ∷ (lit "--assembly_dir=/var/lib/cuttlefish/assembly/" ++ show id)
    ∷ (lit "/var/lib/cuttlefish/instances/" ++ (show id ++ lit "/"))
    ∷ (lit "/var/lib/cuttlefish/assembly/" ++ (show id ++ lit "/"))
    ∷ (lit "cvd-" ++ show id)
    ∷ []

pkill_answer : Option ℕ → Text → Action Bool
pkill_answer none pattern = fail (quoting "pkill -f {} terminated by signal" (pattern ∷ []))
pkill_answer (some zero) pattern = pure true
pkill_answer (some (suc zero)) pattern = pure false
pkill_answer (some (suc (suc c))) pattern =
    fail (quoting "pkill -f {} exited with {}" (pattern ∷ show (suc (suc c)) ∷ []))

abbrev signal_args : Option Text → List Text
signal_args none = []
signal_args (some s) = s ∷ []

unfoldable pub pkill_pattern : Env → Text → Option Text → Action Bool
unfolding pkill_answer
pkill_pattern env pattern signal = do
  out ←
      map_err (context (quoting "invoking pkill {}" (signal_args signal)))
        (run env (command "pkill" (signal_args signal ++ (lit "-f" ∷ pattern ∷ []))))
  pkill_answer out.status.code pattern

-- The order of `i32`, by a number that grows with it.
abbrev pub pid_key : Pid → ℕ
pid_key (plain n) = 2 ^ 31 + n
pid_key (negative n) = 2 ^ 31 - 1 - n

abbrev pub pid_eq : Pid → Pid → Bool
pid_eq (plain m) (plain n) = m == n
pid_eq (negative m) (negative n) = m == n
pid_eq _ _ = false

unfoldable pub seen_contains : Pid → List Pid → Bool
seen_contains p [] = false
seen_contains p (q ∷ qs) = pid_eq p q || seen_contains p qs

-- `HashSet::insert`.
unfoldable pub seen_insert : Pid → List Pid → List Pid
unfolding seen_contains
seen_insert p seen = if seen_contains p seen then seen else p ∷ seen

unfoldable pub sorted_insert : Pid → List Pid → List Pid
sorted_insert p [] = p ∷ []
sorted_insert p (q ∷ qs) =
    if leb (pid_key p) (pid_key q) then p ∷ q ∷ qs else q ∷ sorted_insert p qs

-- `sort_unstable`.
unfoldable pub sort_pids : List Pid → List Pid
unfolding sorted_insert
sort_pids [] = []
sort_pids (p ∷ ps) = sorted_insert p (sort_pids ps)

abbrev pub add_pid : Option Pid → List Pid → List Pid
add_pid none seen = seen
add_pid (some p) seen = seen_insert p seen

unfoldable pub add_lines : List Text → List Pid → List Pid
add_lines [] seen = seen
add_lines (l ∷ ls) seen = add_lines ls (add_pid (parse_i32 (trim l)) seen)

-- The pids of one answer of pgrep; an answer with another status has none.
unfoldable pub add_output : Result Message Output → List Pid → List Pid
add_output (ok out) seen = if success out.status then add_lines (lines out.stdout) seen else seen
add_output (err e) seen = seen
add_output stuck seen = seen

unfoldable pub collect_patterns : Env → List Text → List Pid → Action (List Pid)
collect_patterns env [] seen = pure seen
collect_patterns env (p ∷ ps) seen = do
  out ← attempt (run env (command "pgrep" (lit "-f" ∷ p ∷ [])))
  collect_patterns env ps (add_output out seen)

unfoldable pub collect_guest_pids : Env → InstanceId → Action (List Pid)
collect_guest_pids env id = do
  seen ← collect_patterns env (guest_process_patterns id) []
  pure (sort_pids seen)

pkill_all : Env → List Text → Action (Unit {0})
pkill_all env [] = pure tt
pkill_all env (p ∷ ps) = do
  attempt {F = Message} (pkill_pattern env p (some (lit "-9")))
  pkill_all env ps

show_pid : Pid → Text
show_pid (plain n) = show n
show_pid (negative n) = b'-' ∷ show (suc n)

kill_each : Env → List Pid → Action (Unit {0})
unfolding show_pid
kill_each env [] = pure tt
kill_each env (p ∷ ps) = do
  ignoring (run_command_allow_failure env (command "kill" (lit "-9" ∷ show_pid p ∷ [])))
  kill_each env ps

kill_remaining : Env → InstanceId → List Pid → Action Bool
unfolding kill_each
kill_remaining env id [] = pure true
kill_remaining env id (p ∷ ps) = do
  kill_each env (p ∷ ps)
  sleep_ms env 200
  remaining ← collect_guest_pids env id
  pure (is_empty remaining)

unfoldable pub kill_guest_processes : Env → InstanceId → Action Bool
unfolding pkill_all kill_remaining
kill_guest_processes env id = do
  pkill_all env (guest_process_patterns id)
  sleep_ms env 200
  remaining ← collect_guest_pids env id
  kill_remaining env id remaining

-- `format!("{:02}", id)`.
unfoldable pub padded : ℕ → Text
padded n = if ltb n 10 then b'0' ∷ show n else show n

unfoldable pub remove_network_devices : Env → InstanceId → Action (Unit {0})
remove_network_devices env id = do
  ignoring (run_command_allow_failure env (tuntap_del (lit "cvd-mtap-" ++ padded id)))
  ignoring (run_command_allow_failure env (tuntap_del (lit "cvd-tap-" ++ padded id)))
  ignoring (
      run_command_allow_failure env
        (command "ip" (lit "link" ∷ lit "del" ∷ (lit "cvd-eth-" ++ padded id) ∷ [])))
  where
    tuntap_del : Text → Command
    tuntap_del tap = command "ip" (lit "tuntap" ∷ lit "del" ∷ lit "dev" ∷ tap ∷ [])

unfoldable pub same_tmp_dir : TmpDir → TmpDir → Bool
same_tmp_dir cf_avd cf_avd = true
same_tmp_dir cf_env cf_env = true
same_tmp_dir cf_img cf_img = true
same_tmp_dir _ _ = false

-- `remove_dir_all` of a directory under /tmp, which fails if it is not there. What a failed removal
-- leaves of the directory is not told apart.
unfoldable pub remove_tmp_dir : Env → TmpDir → InstanceId → Action (Unit {0})
remove_tmp_dir env d id w =
    let fails = env.fails w.calls || not (w.tmp d id) in
    let others = λ (e : TmpDir) (j : InstanceId). w.tmp e j && not (same_tmp_dir e d && j == id) in
    (
      if fails then err (os_error w.calls) else ok tt,
      record (tick env w) { tmp = if fails then w.tmp else others },
    )

-- The guest's three directories under /tmp; errors are only logged.
unfoldable pub remove_ephemeral_dirs : Env → InstanceId → Action (Unit {0})
remove_ephemeral_dirs env id = do
  ignoring (remove_tmp_dir env cf_avd id)
  ignoring (remove_tmp_dir env cf_env id)
  ignoring (remove_tmp_dir env cf_img id)

-- /var/lib/cuttlefish/.cuttlefish_config.json
unfoldable pub remove_cuttlefish_config_symlink : Env → Action (Unit {0})
remove_cuttlefish_config_symlink env = ignoring (attempt_call env)

kill_lines : Env → List Text → Action (Unit {0})
kill_lines env [] = pure tt
kill_lines env (l ∷ ls) = do
  (if is_empty (trim l)
      then pure tt
      else ignoring (run_command_allow_failure env (command "kill" (lit "-9" ∷ l ∷ []))))
  kill_lines env ls

kill_holders : Env → Result Message Text → Action (Unit {0})
unfolding kill_lines
kill_holders env (ok out) = kill_lines env (lines out)
kill_holders env _ = pure tt

unfoldable pub kill_open_file_holders : Env → List Text → Action (Unit {0})
unfolding kill_holders
kill_open_file_holders env [] = pure tt
kill_open_file_holders env (path ∷ paths) = do
  out ← attempt (run_command_capture env (command "lsof" (lit "-t" ∷ path ∷ [])))
  kill_holders env out
  kill_open_file_holders env paths

-- The rename to the trash name (`make_trash_path` reads the wall clock), and the purge in a thread.
unfoldable pub rename_to_trash : Env → Slot → InstanceId → Action (Unit {0})
rename_to_trash env s id w =
    if env.fails w.calls
    then (
      err (context (formatted "renaming {} before async purge" (id ∷ [])) (os_error w.calls)),
      tick env w,
    )
    else (ok tt, record (tick env w) { disk = place s id none w.disk })

unfoldable pub trash_then_purge_async : Env → Slot → InstanceId → Action (Unit {0})
trash_then_purge_async env s id = do
  present ← Fs.exists env s id
  if not present then pure tt else do
    attempt {F = Message} (epoch_secs env)
    rename_to_trash env s id
    spawn (purge_trash s id)

unfoldable pub reset_cuttlefish_permissions_async : Action (Unit {0})
reset_cuttlefish_permissions_async = spawn reset_permissions

unfoldable pub reset_cuttlefish_permissions : Env → Action (Unit {0})
reset_cuttlefish_permissions env = do
  ignoring (
      run_command_allow_failure env
        (command "chown" (lit "-R" ∷ lit "justin:cvdnetwork" ∷ lit "/var/lib/cuttlefish" ∷ [])))
  ignoring (
      run_command_allow_failure env
        (command "chmod" (lit "-R" ∷ lit "g+rwX" ∷ lit "/var/lib/cuttlefish" ∷ [])))

unfoldable pub preflight_cleanup : Env → InstanceId → Action (Unit {0})
preflight_cleanup env id = do
  kill_guest_processes env id
  remove_network_devices env id
  remove_ephemeral_dirs env id
  remove_cuttlefish_config_symlink env

abbrev pub first_steps : List String
first_steps =
    "kill_guest_processes" ∷ "remove_network_devices" ∷ "remove_ephemeral_dirs"
    ∷ "remove_cuttlefish_config_symlink" ∷ "kill_open_file_holders" ∷ "collect_guest_pids" ∷ []

-- The directories are trashed only when no process of the guest is left.
trash_dirs : Env → InstanceId → List Pid → Action (List String)
trash_dirs env id (p ∷ ps) = pure []
trash_dirs env id [] = do
  ignoring (trash_then_purge_async env instance_dir id)
  ignoring (trash_then_purge_async env assembly_dir id)
  pure ("trash_instance_dir" ∷ "trash_assembly_dir" ∷ [])

unfoldable pub cleanup_host_state : Env → InstanceId → Action CleanupOutcome
unfolding trash_dirs
cleanup_host_state env id = do
  kill_guest_processes env id
  remove_network_devices env id
  remove_ephemeral_dirs env id
  remove_cuttlefish_config_symlink env
  kill_open_file_holders env (
      (lit "/var/lib/cuttlefish/instances/" ++ show id)
      ∷ (lit "/var/lib/cuttlefish/assembly/" ++ show id)
      ∷ [])
  remaining ← collect_guest_pids env id
  trashed ← trash_dirs env id remaining
  reset_cuttlefish_permissions_async
  pure (from_parts remaining (first_steps ++ (trashed ++ ("reset_permissions" ∷ []))))
