-- ===== src/Tests/Ended.antt =====
-- A stop and a destroy of an instance whose guest has ended, and an exit watcher that outlives its handle.
use fundroid.Prelude.{none, ℕ, ◌≡◌, refl, true, some}
use fundroid.Prelude.Table
use fundroid.Exec.{ok, ◌>>=◌, attempt, map_err}
use fundroid.Protocol.{InstanceState, InstanceActionResponse, DeployRequest}
use fundroid.Text.{codes}
use fundroid.Files.{artifacts, dir, place}
use fundroid.Host.{Env, World}
use fundroid.Host.{WaitEnd}
use fundroid.Host.Fs
use fundroid.Host.Os.{run, sleep_ms, epoch_secs, spawn, instant_now}
use fundroid.Guest.{success, get, signal, wait_timeout, wait_until, try_wait, remove_if_handle}
use fundroid.Manager.Metadata.{
  by_new_manager, metadata, write_metadata, write_env_file, load_metadata,
}
use fundroid.Manager.Metadata.Recorded.{OnDisk}
use fundroid.Manager.Cleanup.{
  cleanup_host_state, kill_guest_processes, collect_guest_pids, collect_patterns, pkill_pattern,
  guest_process_patterns, sort_pids, add_output, run_command_allow_failure, from_parts,
  kill_open_file_holders, remove_cuttlefish_config_symlink, remove_tmp_dir, same_tmp_dir,
  remove_ephemeral_dirs, remove_network_devices, rename_to_trash,
  reset_cuttlefish_permissions_async, run_command_capture, trash_then_purge_async,
}
use fundroid.Manager.Terminate.{
  terminate_guest, exit_state, wait, handle_guest_exit, run_exit_watcher,
}
use fundroid.Manager.Terminate.Exited.{Tells, run_exit_watcher-records}
use fundroid.Manager.Destroy.{
  stop_instance, stop_state, action_response, destroy_instance, prepare_destroy, finish_destroy,
  remove_instance_artifacts, deploy,
}
use fundroid.Manager.Destroy.Deployed.{Deployed, deploy-records}
use fundroid.Manager.Destroy.Removed.{gone}
use fundroid.Manager.Destroy.Destroyed.{Answered, destroy_instance-removes}
use fundroid.Manager.Destroy.Stopped.{Stopped, stop_instance-records}
use fundroid.Tests.{quiet, quiet_host, world, exited_world, ended_well, metadata_of}

stopped_1 : (r : InstanceActionResponse) × ((stop_instance quiet 1 exited_world).0 ≡ ok r)
unfolding stop_instance ◌>>=◌ attempt map_err metadata load_metadata Fs.read terminate_guest get
    signal wait_timeout wait_until try_wait instant_now remove_if_handle epoch_secs write_metadata
    Fs.create_dir_all Fs.write Fs.rename cleanup_host_state kill_guest_processes collect_guest_pids
    collect_patterns pkill_pattern guest_process_patterns sort_pids add_output
    run_command_allow_failure from_parts kill_open_file_holders remove_cuttlefish_config_symlink
    same_tmp_dir remove_tmp_dir remove_ephemeral_dirs remove_network_devices rename_to_trash
    reset_cuttlefish_permissions_async run_command_capture trash_then_purge_async run sleep_ms spawn
    Fs.exists stop_state success action_response
stopped_1 = (_, refl)

stop_instance-records_example :
    Stopped quiet 1 exited_world stopped_1.0 (stop_instance quiet 1 exited_world).1
stop_instance-records_example = stop_instance-records quiet 1 exited_world stopped_1.0 stopped_1.1

destroyed_1 :
    (r : InstanceActionResponse) × ((destroy_instance quiet 1
        (record { timeout_secs = none })
        exited_world).0
      ≡ ok r)
unfolding destroy_instance prepare_destroy finish_destroy remove_instance_artifacts by_new_manager
    ◌>>=◌ attempt map_err metadata load_metadata Fs.read terminate_guest get signal wait_timeout
    wait_until try_wait instant_now remove_if_handle epoch_secs write_metadata Fs.create_dir_all
    Fs.write Fs.rename Fs.remove_file Fs.remove_root cleanup_host_state kill_guest_processes
    collect_guest_pids collect_patterns pkill_pattern guest_process_patterns sort_pids add_output
    run_command_allow_failure from_parts kill_open_file_holders remove_cuttlefish_config_symlink
    same_tmp_dir remove_tmp_dir remove_ephemeral_dirs remove_network_devices rename_to_trash
    reset_cuttlefish_permissions_async run_command_capture trash_then_purge_async run sleep_ms spawn
    Fs.exists success action_response
destroyed_1 = (_, refl)

destroy_instance-removes_example :
    Answered quiet 1
      (gone 1)
      destroyed_1.0
      (destroy_instance quiet 1 (record { timeout_secs = none }) exited_world).1
destroy_instance-removes_example =
    destroy_instance-removes quiet 1 (record { timeout_secs = none }) exited_world destroyed_1.0
      destroyed_1.1

abbrev image : DeployRequest
image = record { id = 1; boot_image = some (codes "new.img"); init_boot_image = none }

-- The directory of the artifacts is there.
abbrev deployable : World
deployable = record exited_world { disk = place artifacts 1 (some dir) exited_world.disk }

deploy-records_example : Deployed quiet image deployable (deploy quiet image deployable).1
unfolding deploy ◌>>=◌ map_err metadata load_metadata Fs.read epoch_secs write_metadata
    write_env_file Fs.create_dir_all Fs.write Fs.rename
deploy-records_example = deploy-records quiet image deployable refl

-- The guest of handle 0 ends, while handle 1 is registered.
abbrev ending : Env
ending = record quiet { host = record quiet_host { wait_end = λ n h. WaitEnd.ended ended_well } }

abbrev restarted : World
restarted = record (world true) { registry = Table.insert 1 1 Table.empty; next_handle = 2 }

run_exit_watcher-records_example :
    (state : InstanceState) × (now : ℕ) × Tells ended_well state
    × OnDisk 1
        (record (metadata_of 1) { state = state; updated_at = now })
        (run_exit_watcher ending 1 0 restarted).1
    × ((run_exit_watcher ending 1 0 restarted).1.registry 1 ≡ some 1)
unfolding wait ◌>>=◌ attempt map_err metadata load_metadata Fs.read remove_if_handle epoch_secs
    write_metadata Fs.create_dir_all Fs.write Fs.rename cleanup_host_state kill_guest_processes
    collect_guest_pids collect_patterns pkill_pattern guest_process_patterns sort_pids add_output
    run_command_allow_failure from_parts kill_open_file_holders remove_cuttlefish_config_symlink
    same_tmp_dir remove_tmp_dir remove_ephemeral_dirs remove_network_devices rename_to_trash
    reset_cuttlefish_permissions_async run_command_capture trash_then_purge_async run sleep_ms spawn
    Fs.exists success handle_guest_exit exit_state
run_exit_watcher-records_example =
    run_exit_watcher-records ending 1 0 restarted ended_well (metadata_of 1) 1 refl refl refl refl
