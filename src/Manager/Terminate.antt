-- ===== src/Manager/Terminate.antt =====
-- cuttlefish/cfctl/src/daemon/manager.rs: ending a guest, recording that it ended, and the thread
-- that waits for its end.
pub mod Untouched
pub mod Finishes
pub mod Gone
pub mod Disk
pub mod Exited
pub mod Blocked
use fundroid.Prelude.{
  ℕ, true, false, not, ◌||◌, Option, none, some, [], ◌∷◌, if◌then◌else◌, is_some,
}
use fundroid.Exec.{
  Result, ok, err, stuck, hang, pure, fail, gets, modify, map_err, attempt, ◌>>=◌, ◌>>◌,
}
use fundroid.Text.{Text}
use fundroid.Protocol.{
  Message, plain, formatted, quoting, os_error, context, InstanceId, InstanceState, stopped, failed,
}
use fundroid.Files.{InstanceMetadata, console_snapshot, text}
use fundroid.Host.{ExitStatusInfo, Env, World, GuestHandle, WaitEnd, exit_watcher, Action, tick}
use fundroid.Host.Fs
use fundroid.Host.Os.{epoch_secs}
use fundroid.Guest.{success, set_handle, reaped, wait_timeout, signal, get, remove_if_handle}
use fundroid.Manager.Metadata.{
  cache_insert, by_new_manager, metadata, write_metadata, write_env_file,
}
use fundroid.Manager.Cleanup.{cleanup_host_state}
use fundroid.Manager.Logs.{guest_log_tail, console_log_path, path_present}

abbrev pub sigterm : ℕ
sigterm = 15

abbrev pub sigkill : ℕ
sigkill = 9

abbrev drop_handle : InstanceId → ℕ → Action (Unit {0})
drop_handle id h = modify (remove_if_handle id h)

-- The grace period has passed: SIGKILL, and five seconds more. The handle goes either way.
force_kill : Env → InstanceId → ℕ → Action (Option ExitStatusInfo)
force_kill env id h = do
  signal env h sigkill
  exit ← wait_timeout env h 5000
  drop_handle id h
  pure exit

after_grace : Env → InstanceId → ℕ → Option ExitStatusInfo → Action (Option ExitStatusInfo)
unfolding force_kill
after_grace env id h (some exit) = do drop_handle id h; pure (some exit)
after_grace env id h none = force_kill env id h

terminate_handle : Env → InstanceId → ℕ → Option ℕ → Action (Option ExitStatusInfo)
unfolding after_grace
terminate_handle env id grace none = pure none
terminate_handle env id grace (some h) = do
  signal env h sigterm
  exit ← wait_timeout env h grace
  after_grace env id h exit

-- The grace period is in milliseconds.
unfoldable pub terminate_guest : Env → InstanceId → ℕ → Action (Option ExitStatusInfo)
unfolding terminate_handle
terminate_guest env id grace = do handle ← gets (get id); terminate_handle env id grace handle

with_tail : Option Text → Message → Message
with_tail none cause = cause
with_tail (some tail) cause = context (quoting "cfctl-run.log tail:\n{}" (tail ∷ [])) cause

-- Returns the cause, with the log's tail as its context.
unfoldable pub record_launch_failure :
    Env → InstanceId → InstanceMetadata → Message → Action Message
unfolding with_tail
record_launch_failure env id m cause = do
  now ← epoch_secs env
  let ended = record m { state = failed; updated_at = now }
  write_metadata env id ended
  write_env_file env id ended
  cache_insert id ended
  tail ← guest_log_tail env id env.journal_lines
  pure (with_tail tail cause)

unfoldable pub snapshot_console_on_failure : Env → InstanceId → Action (Unit {0})
snapshot_console_on_failure env id = do
  present ← path_present env (console_log_path env id)
  if not present then pure tt else do
    map_err (context (formatted "copying console log of {}" (id ∷ []))) (λ w.
        Fs.write env console_snapshot id (text (env.log_text w.calls (console_log_path env id))) w)

-- The state of an instance whose guest ended by itself.
unfoldable pub exit_state : ExitStatusInfo → InstanceState
exit_state exit = if success exit then stopped else failed

exited : Env → InstanceId → ExitStatusInfo → Result Message InstanceMetadata → Action (Unit {0})
exited env id exit (err e) = pure tt
exited env id exit stuck = hang
exited env id exit (ok m) = do
  now ← epoch_secs env
  let ended = record m { state = exit_state exit; updated_at = now }
  (if success exit
      then pure tt
      else do attempt {F = Message} (snapshot_console_on_failure env id); pure tt)
  write_metadata env id ended
  cache_insert id ended
  cleanup_host_state env id
  pure tt

unfoldable pub handle_guest_exit : Env → InstanceId → ExitStatusInfo → Action (Unit {0})
unfolding exited
handle_guest_exit env id exit = do old ← attempt (metadata env id); exited env id exit old

-- The watcher's thread is taken to reach its wait at once: it takes the child and holds the mutex.
abbrev begin_wait : GuestHandle → GuestHandle
begin_wait g =
    if is_some g.exit || not g.child then g else record g { child = false; locked = true }

unfoldable pub spawn_exit_watcher : InstanceId → ℕ → World → World
spawn_exit_watcher id h w = record (set_handle h (begin_wait (w.handles h)) w) {
  background = exit_watcher id h ∷ w.background;
}

-- The wait of the watcher, when it ends: the status is left for others, and the mutex released.
end_wait : WaitEnd → ℕ → World → Result Message ExitStatusInfo × World
end_wait WaitEnd.never h w = (stuck, w)
end_wait WaitEnd.wait_failed h w =
    (err (os_error w.calls), set_handle h (record (w.handles h) { locked = false }) w)
end_wait (WaitEnd.ended e) h w = (ok e, set_handle h (reaped e (w.handles h)) w)

known_exit : Option ExitStatusInfo → Action ExitStatusInfo
known_exit none = fail (plain "guest process already awaited")
known_exit (some e) = pure e

-- `GuestHandle::wait`, from where `spawn_exit_watcher` left it.
unfoldable pub wait : Env → ℕ → Action ExitStatusInfo
unfolding end_wait known_exit
wait env h w =
    if (w.handles h).locked
    then end_wait (env.wait_end w.calls h) h (tick env w)
    else known_exit (w.handles h).exit w

watched : Env → InstanceId → ℕ → Result Message ExitStatusInfo → Action (Unit {0})
watched env id h stuck = hang
watched env id h (err e) = drop_handle id h
watched env id h (ok exit) = do
  drop_handle id h
  attempt {F = Message} (by_new_manager (handle_guest_exit env id exit))
  pure tt

-- The thread of `spawn_exit_watcher`.
unfoldable pub run_exit_watcher : Env → InstanceId → ℕ → Action (Unit {0})
unfolding watched
run_exit_watcher env id h = do exit ← attempt (wait env h); watched env id h exit
