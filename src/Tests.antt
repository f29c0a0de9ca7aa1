-- ===== src/Tests.antt =====
-- Runs on a machine with the instances 1 and 2, that apply the theorems.
pub mod Locks
pub mod Screen
pub mod Picture
pub mod Client
pub mod Cleanup
pub mod Ended
pub mod Rectangle
use fundroid.Prelude.{ℕ, ◌+◌, ◌⊎◌, ◌≡◌, ◌≢◌, refl, Bool, true, false, Option, none, some, [], arith}
use fundroid.Prelude.Table
use fundroid.Exec.{Result, ok, stuck, ◌>>=◌}
use fundroid.Text.{codes}
use fundroid.Protocol.{created, hold_instance, status}
use fundroid.Files.{
  InstanceMetadata, external, Contents, json, dir, file, Disk, root, metadata_file, place,
}
use fundroid.Config
use fundroid.Config.{CfctlDaemonConfig}
use fundroid.Host.{Host, Env, World, GuestHandle, never, not_found, ExitStatusInfo}
use fundroid.Host.Untouched.{Untouched}
use fundroid.Exec.{map_err}
use fundroid.Text.Numbers.{show}
use fundroid.Host.Fs
use fundroid.Host.Os.{instant_now}
use fundroid.Guest.{get, signal, try_wait, wait_until, wait_timeout, remove_if_handle}
use fundroid.Manager.Metadata.{summary, metadata, load_metadata, write_metadata}
use fundroid.Manager.Metadata.Atomic.{write_metadata-atomic}
use fundroid.Manager.Terminate.{terminate_guest}
use fundroid.Manager.Terminate.Gone.{terminate_guest-unregisters, terminate_guest-ends}
use fundroid.Protocol.{StartOptions, ErrorDetail, InstanceActionResponse}
use fundroid.Guest
use fundroid.Guest.{contains}
use fundroid.Exec.{attempt}
use fundroid.Manager.Start
use fundroid.Manager.Start.Launched.{Watched, Running, start_instance-Running}
use fundroid.Host.Os
use fundroid.Manager.Logs.{path_present}
use fundroid.Manager.Launch.{
  prepare_host_directories, ensure_qemu_datadir, prepare_run_log, spawn_guest_process,
  guest_command,
}
use fundroid.Manager.Cleanup.{
  preflight_cleanup, kill_guest_processes, pkill_pattern, collect_guest_pids, collect_patterns,
  sort_pids, add_output, remove_network_devices, run_command_allow_failure, run_command_capture,
  remove_tmp_dir, same_tmp_dir, remove_ephemeral_dirs, remove_cuttlefish_config_symlink,
  kill_open_file_holders, trash_then_purge_async, reset_cuttlefish_permissions_async,
  reset_cuttlefish_permissions, seen_insert, seen_contains, add_lines,
}
use fundroid.Manager.Handle.Returns.{WellFormed}
use fundroid.Protocol.Reply.{Response}
use fundroid.Protocol.{Message}
use fundroid.Daemon.{maybe_instance_id, respond_to}
use fundroid.Daemon.Isolation.{respond_to-Untouched}
use fundroid.Host.{exit_watcher}
use fundroid.Protocol.{stop_instance, running}
use fundroid.Daemon.Blocked.{respond_to-blocked}
use fundroid.Prelude.{List, length}
use fundroid.Manager.Prune.{entry_id, list_instances}
use fundroid.Manager.Prune.Complete.{Names}
use fundroid.Host.{DirEntry}
use fundroid.Protocol.{InstanceSummary}
use fundroid.Prelude.{All, inr}
use fundroid.Manager.Prune.Listed.{Ascending, Alive}
use fundroid.Manager.Prune.Complete.{In, list_instances-lists}
use fundroid.Manager.Metadata.{summary}
use fundroid.Daemon.Answers.{respond_to-answers}
use fundroid.Manager.Adb.{wait_for_adb, verify_boot_completed}
use fundroid.Manager.Adb.Finishes.{wait_for_adb-ends}
use fundroid.Prelude.{inl, ◌∷◌}
use fundroid.Manager.Metadata.{write_env_file}
use fundroid.Prelude.{◌++◌}
use fundroid.Text.{trim, Text}
use fundroid.Text.Numbers.{parse_u64, scan, is_digit}
use fundroid.Text.Numbers.RoundTrip.{parse_u64-show}
use fundroid.Protocol.{CreateInstanceResponse}
use fundroid.Host.{entries}
use fundroid.Host.Os.{epoch_secs}
use fundroid.Manager.Alloc
use fundroid.Manager.Alloc.{
  allocate_id, select_id, occupied, next_of, open_id_file, store_next, create_instance,
  fill_instance, new_metadata, plain_response,
}
use fundroid.Manager.Alloc.Search.{Free}
use fundroid.Manager.Alloc.Fresh.{Stored, allocate_id-fresh, allocate_id-finds}
use fundroid.Manager.Alloc.Spared.{create_instance-spares}
use fundroid.Manager.Alloc.Recorded.{Created, create_instance-records}
use fundroid.Manager.Metadata.Recorded.{Recorded}
use fundroid.Manager.Cleanup.{guest_process_patterns}
use fundroid.Manager.Cleanup.Overlap.{guest_process_patterns-overlap}
use fundroid.Manager.Prune.{prune_all_instances, prune_expired_instances}
use fundroid.Manager.Prune.Held.{Held, prune_all_instances-spares, prune_expired_instances-spares}

abbrev pub metadata_of : ℕ → InstanceMetadata
metadata_of i = record {
  id = i;
  purpose = none;
  adb_port = 6519 + i;
  state = created;
  boot_image = external (codes "boot.img");
  init_boot_image = external (codes "init_boot.img");
  created_at = 5;
  updated_at = 5;
  held = false;
}

abbrev decode : Contents → Option InstanceMetadata
decode (json m) = some m
decode _ = none

-- No call fails, and no program can be run; a guest that is waited for never ends.
abbrev pub quiet_host : Host
quiet_host = record {
  fails = λ n. false;
  elapsed = λ n. 1;
  epoch = λ n. some 100;
  leftover = λ n. none;
  survives = λ n s. false;
  parse_json = decode;
  read_dir = λ n. not_found;
  path_exists = λ n p. false;
  log_text = λ n p. [];
  child_status = λ n h. none;
  wait_end = λ n h. never;
  no_such_process = λ n. false;
  output = λ n c. none;
  uid = λ t. none;
  gid = λ t. none;
  spawn_guest = λ n c. none;
  received = λ n. true;
  pid = 1;
}

abbrev pub quiet : Env
quiet = record { host = quiet_host; config = Config.default }

abbrev guest : Bool → GuestHandle
guest locked = record { pid = 700; child = true; exit = none; locked = locked }

abbrev instance_disk : ℕ → Disk → Disk
instance_disk i d =
    place root i (some dir) (place metadata_file i (some (file (json (metadata_of i)))) d)

-- Two instances; the first has a registered guest, whose lock is free or not.
abbrev pub world : Bool → World
world locked = record {
  calls = 0;
  clock = 0;
  disk = instance_disk 1 (instance_disk 2 (λ s i. none));
  tmp = λ d i. true;
  cache = Table.empty;
  registry = Table.insert 1 0 Table.empty;
  handles = λ h. guest locked;
  next_handle = 1;
  background = [];
}

abbrev pub ended_well : ExitStatusInfo
ended_well = record { code = some 0; signal = none }

-- The guest of the first instance has ended.
abbrev pub exited_world : World
exited_world = record (world false) {
  handles = λ h. record { pid = 700; child = false; exit = some ended_well; locked = false };
}

respond_to-Untouched_example :
    Untouched 2 (world false) (respond_to quiet (hold_instance 1) (world false)).1
unfolding maybe_instance_id
respond_to-Untouched_example =
    respond_to-Untouched quiet (hold_instance 1) 2 1 (world false) refl (λ e. cc)

respond_to-answers_example :
    (response : Response) × ((respond_to quiet (status 2) (world false)).0 ≡ ok response)
    × WellFormed (status 2) response
respond_to-answers_example = respond_to-answers quiet (status 2) (world false) (λ h. refl)

wait_for_adb-ends_example : (wait_for_adb quiet 1 (some 30) (world false)).0 ≢ stuck
wait_for_adb-ends_example = wait_for_adb-ends quiet 1 (some 30) (world false) (λ h. refl)

write_metadata-atomic_example :
    ((write_metadata quiet 1 (metadata_of 1) (world false)).0 ≡ ok tt
      × ((write_metadata quiet 1 (metadata_of 1) (world false)).1.disk metadata_file 1
          ≡ some (file (json (metadata_of 1)))))
    ⊎ ((write_metadata quiet 1 (metadata_of 1) (world false)).0 ≢ ok tt
        × ((write_metadata quiet 1 (metadata_of 1) (world false)).1.disk metadata_file 1
            ≡ (world false).disk metadata_file 1))
write_metadata-atomic_example = write_metadata-atomic quiet 1 (metadata_of 1) (world false)

terminate_guest-ends_example : (terminate_guest quiet 1 5000 (world false)).0 ≢ stuck
terminate_guest-ends_example = terminate_guest-ends quiet 1 5000 (world false) 0 refl refl

terminate_guest-unregisters_example :
    (terminate_guest quiet 1 5000 exited_world).1.registry 1 ≡ none
unfolding terminate_guest ◌>>=◌ get signal wait_timeout wait_until try_wait instant_now
    remove_if_handle
terminate_guest-unregisters_example =
    terminate_guest-unregisters quiet 1 5000 exited_world (some ended_well) refl

abbrev running_metadata : InstanceMetadata
running_metadata = record (metadata_of 1) { state = running }

-- The first instance was started without a wait for adb.
abbrev watched_world : World
watched_world = record (world true) {
  disk = place metadata_file 1 (some (file (json running_metadata))) (world true).disk;
  cache = Table.insert 1 running_metadata Table.empty;
  background = exit_watcher 1 0 ∷ [];
}

respond_to-blocked_example : (respond_to quiet (stop_instance 1) watched_world).0 ≡ stuck
unfolding plain_response
respond_to-blocked_example =
    respond_to-blocked quiet 1 0 (plain_response quiet running_metadata) watched_world watched
      (λ m. refl) (λ n. refl) (λ n. refl)
  where
    watched : Watched quiet 1 0 (plain_response quiet running_metadata) watched_world
    watched = record {
      registered = refl;
      locked = refl;
      watches = ([], refl);
      recorded = (running_metadata, (refl, refl), refl, refl);
    }

allocate_id-fresh_example : Free (world false).disk 3 × Stored 4 (allocate_id quiet (world false)).1
unfolding allocate_id select_id occupied next_of open_id_file store_next Fs.exists Fs.write ◌>>=◌
    parse_u64 trim
allocate_id-fresh_example = allocate_id-fresh quiet (world false) 3 refl

allocate_id-finds_example : (id : ℕ) × ((allocate_id quiet (world false)).0 ≡ ok id)
allocate_id-finds_example =
    allocate_id-finds quiet (world false) 7 (λ n. refl) (omega arith, omega arith, refl, refl)

create_instance-spares_example :
    Untouched 1 (world false) (create_instance quiet none (world false)).1
create_instance-spares_example =
    create_instance-spares quiet (world false) none 1 (λ e. ground arith) (inl refl)

-- What a creation returns.
abbrev made : Result Message CreateInstanceResponse → CreateInstanceResponse
made (ok r) = r
made _ = record { summary = record { id = 0; adb = none; state = created } }

create_instance-records_example :
    Free (world false).disk 3
    × Created quiet none
        (made (create_instance quiet none (world false)).0)
        (create_instance quiet none (world false)).1
unfolding create_instance fill_instance allocate_id select_id occupied next_of open_id_file
    store_next Fs.exists Fs.write Fs.create_dir_all Fs.rename ◌>>=◌ parse_u64 trim map_err
    epoch_secs write_metadata write_env_file summary new_metadata
create_instance-records_example =
    create_instance-records quiet (world false) none
      (made (create_instance quiet none (world false)).0) refl

parse_u64-show_example : parse_u64 (show 6520) ≡ some 6520
parse_u64-show_example = parse_u64-show 6520 (omega arith)

guest_process_patterns-overlap_example :
    (a b u v c : Text) × (u' v' : Text) × (guest_process_patterns 1 ≡ a ∷ b ∷ u ∷ v ∷ c ∷ [])
    × (guest_process_patterns 10
        ≡ (a ++ codes "0") ∷ (b ++ codes "0") ∷ u' ∷ v' ∷ (c ++ codes "0") ∷ [])
guest_process_patterns-overlap_example =
    guest_process_patterns-overlap 1 0 (omega arith) (omega arith)

-- The directory lists both instances; the second is held.
abbrev listing : Env
listing = record quiet {
  host = record quiet_host {
    read_dir = λ n. entries (
        some (record { is_dir = true; name = some (codes "1") })
        ∷ some (record { is_dir = true; name = some (codes "2") })
        ∷ []);
  };
}

abbrev held_world : World
held_world = record (world false) {
  disk =
      place metadata_file 2 (some (file (json (record (metadata_of 2) { held = true }))))
        (world false).disk;
}

held_world-Held : Held listing 2 held_world
held_world-Held = ((λ m e. cc), λ c m e e'. ground arith)

prune_all_instances-spares_example :
    Untouched 2 held_world (prune_all_instances listing held_world).1
prune_all_instances-spares_example = prune_all_instances-spares listing 2 held_world held_world-Held

prune_expired_instances-spares_example :
    Untouched 2 held_world (prune_expired_instances listing 10 held_world).1
prune_expired_instances-spares_example =
    prune_expired_instances-spares listing 2 held_world 10 held_world-Held

-- A host on which a guest can be launched.
abbrev launching : Env
launching = record quiet {
  host = record quiet_host {
    uid = λ t. some 1000;
    gid = λ t. some 1000;
    spawn_guest = λ n c. some 800;
    path_exists = λ n p. true;
  };
}

abbrev skipping : StartOptions
skipping = record {
  disable_webrtc = true;
  timeout_secs = none;
  verify_boot = false;
  skip_adb_wait = true;
  track = none;
}

abbrev acted : Result ErrorDetail InstanceActionResponse → InstanceActionResponse
acted (ok r) = r
acted _ = plain_response quiet (metadata_of 0)

start_instance-Running_example :
    Running launching 2 skipping
      (acted (Start.start_instance launching 2 skipping (world false)).0)
      (Start.start_instance launching 2 skipping (world false)).1
unfolding Start.start_instance Start.launch Start.start_without_adb Start.register metadata
    load_metadata Fs.read Fs.write Fs.create_dir_all Fs.rename Fs.exists map_err attempt epoch_secs
    write_metadata write_env_file ◌>>=◌ contains guest_process_patterns Os.run Os.sleep_ms Os.spawn
    Guest.insert preflight_cleanup kill_guest_processes pkill_pattern collect_guest_pids
    collect_patterns sort_pids add_output remove_network_devices run_command_allow_failure
    run_command_capture same_tmp_dir remove_tmp_dir remove_ephemeral_dirs
    remove_cuttlefish_config_symlink kill_open_file_holders trash_then_purge_async
    reset_cuttlefish_permissions_async reset_cuttlefish_permissions seen_insert seen_contains
    add_lines prepare_host_directories ensure_qemu_datadir prepare_run_log spawn_guest_process
    guest_command path_present
start_instance-Running_example =
    start_instance-Running launching 2 skipping (world false)
      (acted (Start.start_instance launching 2 skipping (world false)).0) refl refl

-- The entry of the second instance is the second of the directory.
abbrev listing_entries : List (Option DirEntry)
listing_entries =
    some (record { is_dir = true; name = some (codes "1") })
    ∷ some (record { is_dir = true; name = some (codes "2") })
    ∷ []

second_named : Names 2 listing_entries
unfolding entry_id parse_u64 scan is_digit
second_named = inr (inl refl)

list_instances-lists_example :
    (ss : List InstanceSummary) × ((list_instances listing (world false)).0 ≡ ok ss)
    × In (summary listing (metadata_of 2)) ss
    × Ascending ss
    × All Alive ss
list_instances-lists_example =
    list_instances-lists listing (world false) 2 (metadata_of 2) listing_entries refl
      (refl, (refl, tt)) second_named refl refl refl (λ n. refl) refl
