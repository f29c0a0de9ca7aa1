-- ===== src/Client.antt =====
-- cuttlefish/cfctl/src/bin/cfctl.rs: the command line client. clap parses the arguments into
-- `Commands`; the socket and serde_json are the parameter `Link`.
pub mod Exits
pub mod RoundTrip
use fundroid.Prelude.{
  ℕ, Bool, true, false, ◌&&◌, not, Option, none, some, List, [], ◌∷◌, ◌++◌, String, is_empty,
  is_some, if◌then◌else◌, map,
}
use fundroid.Exec.{Result, ok, err, stuck}
use fundroid.Text.{Text, newline, trim}
use fundroid.Text.Numbers.{Pid}
use fundroid.Protocol.{
  InstanceId, StartOptions, DestroyOptions, LogsOptions, Message, ErrorDetail, Request,
  create_instance, start_instance, create_start_instance, stop_instance, hold_instance,
  destroy_instance, wait_for_adb, list_instances, prune_expired, prune_all, CleanupSummary,
  InstanceActionResponse, LogsResponse,
}
use fundroid.Protocol
use fundroid.Protocol.Reply.{Response}

pub data InstanceCommands : Type 0 where
  create : (purpose : Option Text) → InstanceCommands
  start : InstanceId → StartOptions → InstanceCommands
  create_start : (purpose : Option Text) → StartOptions → InstanceCommands
  stop : InstanceId → InstanceCommands
  hold : InstanceId → InstanceCommands
  destroy : InstanceId → (timeout_secs : Option ℕ) → InstanceCommands
  status : InstanceId → InstanceCommands
  describe : InstanceId → (run_log_lines : ℕ) → InstanceCommands
  list : InstanceCommands
  prune : (max_age_secs : ℕ) (all : Bool) → InstanceCommands

pub data Commands : Type 0 where
  instances : InstanceCommands → Commands
  deploy : InstanceId → (boot init : Option Text) → Commands
  wait_adb : InstanceId → (timeout_secs : Option ℕ) → Commands
  logs : InstanceId → (lines timeout_secs : Option ℕ) (stdout : Bool) → Commands

pub data ClientError : Type 0 where
  deploy_requires_image : ClientError
  daemon_not_running : ClientError  -- refused, or no such socket
  not_connected : ClientError
  not_encoded : ClientError
  request_not_sent : ClientError
  newline_not_sent : ClientError
  not_shut_down : ClientError
  interrupted : ClientError  -- the end of the file, or a reset connection
  not_read : ClientError
  empty_response : ClientError
  not_decoded : Text → ClientError

pub data Connected : Type 0 where
  connected : Connected
  refused : Connected
  not_found : Connected
  other_error : Connected

-- `read_line`; `never` where no line and no end comes.
pub data Read : Type 0 where
  line : Text → Read
  unexpected_eof : Read
  connection_reset : Read
  read_error : Read
  never : Read

pub record Link : Type 0 where
  pub connect : Connected
  pub encode_request : Request → Option Text
  pub write_request : Bool
  pub write_newline : Bool
  pub shutdown : Bool
  pub answer : Text → Read  -- to the bytes that were sent
  pub decode_response : Text → Option Response
  pub to_string_pretty : Response → Option Text
  pub dots : ℕ  -- how often the progress printer woke up

decoded : Text → Option Response → Result ClientError Response
decoded text none = err (not_decoded (trim text))
decoded text (some r) = ok r

after_read : Link → Read → Result ClientError Response
unfolding decoded
after_read link (line text) =
    if is_empty (trim text) then err empty_response else decoded text (link.decode_response text)
after_read link unexpected_eof = err interrupted
after_read link connection_reset = err interrupted
after_read link read_error = err not_read
after_read link never = stuck

exchange : Link → Option Text → Result ClientError Response
unfolding after_read
exchange link none = err not_encoded
exchange link (some payload) =
    if not link.write_request
    then err request_not_sent
    else if not link.write_newline
    then err newline_not_sent
    else if not link.shutdown
    then err not_shut_down
    else after_read link (link.answer (payload ++ newline ∷ []))

on_connection : Link → Connected → Request → Result ClientError Response
unfolding exchange
on_connection link connected request = exchange link (link.encode_request request)
on_connection link refused request = err daemon_not_running
on_connection link not_found request = err daemon_not_running
on_connection link other_error request = err not_connected

unfoldable pub send_request : Link → Request → Result ClientError Response
unfolding on_connection
send_request link request = on_connection link link.connect request

abbrev no_image : Option Text → Option Text → Bool
no_image boot init = not (is_some boot) && not (is_some init)

instance_request : InstanceCommands → Request
instance_request (create purpose) = create_instance purpose
instance_request (start id options) = start_instance id options
instance_request (create_start purpose options) = create_start_instance purpose options
instance_request (stop id) = stop_instance id
instance_request (hold id) = hold_instance id
instance_request (destroy id timeout_secs) =
    destroy_instance id (record { timeout_secs = timeout_secs })
instance_request (status id) = Request.status id
instance_request (describe id run_log_lines) = Request.describe id (some run_log_lines)
instance_request list = list_instances
instance_request (prune max_age_secs all) = if all then prune_all else prune_expired max_age_secs

-- `to_string_lossy` of a path is the path here: paths are text.
unfoldable pub request_of : Commands → Result ClientError Request
unfolding instance_request
request_of (instances cmd) = ok (instance_request cmd)
request_of (deploy id boot init) =
    if no_image boot init
    then err deploy_requires_image
    else ok (Request.deploy (record { id = id; boot_image = boot; init_boot_image = init }))
request_of (wait_adb id timeout_secs) = ok (wait_for_adb id timeout_secs)
request_of (logs id lines timeout_secs stdout) =
    ok (Request.logs id lines (record { timeout_secs = timeout_secs; stream_stdout = stdout }))

-- What is written to stderr.
pub data Feedback : Type 0 where
  destroying : InstanceId → (dots : ℕ) → Feedback
  destroy_failed : (detail : Option Message) (code : String) → Feedback
  no_surviving_processes : Feedback
  cleanup_executed : Feedback
  remaining_processes : List Pid → Feedback
  cleanup_steps : List String → Feedback

error_feedback : Option ErrorDetail → List Feedback
error_feedback none = []
error_feedback (some e) = destroy_failed e.message e.code ∷ []

processes_feedback : CleanupSummary → Feedback
processes_feedback c =
    if c.guest_processes_killed
    then no_surviving_processes
    else if is_empty c.remaining_pids
    then cleanup_executed
    else remaining_processes c.remaining_pids

cleanup_feedback : Option CleanupSummary → List Feedback
unfolding processes_feedback
cleanup_feedback none = []
cleanup_feedback (some c) =
    processes_feedback c ∷ (if is_empty c.steps then [] else cleanup_steps c.steps ∷ [])

action_feedback : Option InstanceActionResponse → List Feedback
unfolding cleanup_feedback
action_feedback none = []
action_feedback (some a) = cleanup_feedback a.cleanup

unfoldable pub emit_cleanup_feedback : Response → List Feedback
unfolding error_feedback action_feedback
emit_cleanup_feedback r = if not r.ok then error_feedback r.error else action_feedback r.action

pub data Exit : Type 0 where
  success : Exit
  failure : Exit  -- `process::exit(1)`
  reported : ClientError → Exit  -- the error that `main` returns
  waiting : Exit  -- the answer never comes

pub record Run : Type 0 where
  pub stdout : List Text
  pub stderr : List Feedback
  pub exit : Exit

-- The code of the process; none as long as it waits.
abbrev pub exit_code : Exit → Option ℕ
exit_code success = some 0
exit_code failure = some 1
exit_code (reported e) = some 1
exit_code waiting = none

printed : Option Text → List Feedback → Response → Run
printed none feedback r = record { stdout = []; stderr = feedback; exit = reported not_encoded }
printed (some text) feedback r = record {
  stdout = text ∷ (newline ∷ []) ∷ [];
  stderr = feedback;
  exit = if r.ok then success else failure;
}

-- The whole response, and the exit by its `ok`.
print_response : Link → List Feedback → Response → Run
unfolding printed
print_response link feedback r = printed (link.to_string_pretty r) feedback r

journal_of : Option LogsResponse → List Text
journal_of none = []
journal_of (some l) = elim l.journal [ none ↦ [] | some journal ↦ journal ∷ [] ]

-- With `--stdout` the journal alone is printed.
print_logs : Link → Bool → Response → Run
unfolding print_response journal_of
print_logs link stdout r =
    if stdout && r.ok
    then record { stdout = journal_of r.logs; stderr = []; exit = success }
    else print_response link [] r

-- What was shown before the answer.
progress : Link → Commands → List Feedback
progress link (instances (destroy id timeout_secs)) = destroying id link.dots ∷ []
progress link _ = []

finish : Link → Commands → Response → Run
unfolding print_response print_logs progress emit_cleanup_feedback
finish link (instances (destroy id timeout_secs)) r =
    print_response link (destroying id link.dots ∷ emit_cleanup_feedback r) r
finish link (logs id lines timeout_secs stdout) r = print_logs link stdout r
finish link _ r = print_response link [] r

answered : Link → Commands → Result ClientError Response → Run
unfolding finish progress
answered link cmd (ok r) = finish link cmd r
answered link cmd (err e) = record { stdout = []; stderr = progress link cmd; exit = reported e }
answered link cmd stuck = record { stdout = []; stderr = progress link cmd; exit = waiting }

sent : Link → Commands → Result ClientError Request → Run
unfolding answered
sent link cmd (ok request) = answered link cmd (send_request link request)
sent link cmd (err e) = record { stdout = []; stderr = []; exit = reported e }
sent link cmd stuck = record { stdout = []; stderr = []; exit = waiting }

unfoldable pub main : Link → Commands → Run
unfolding sent
main link cmd = sent link cmd (request_of cmd)
