-- ===== src/Tests/Cleanup.antt =====
-- A cleanup while a process of the guest stays alive, and the sweep of the trash.
use fundroid.Prelude.{ℕ, ◌≡◌, refl, false, Option, none, some, List, [], ◌∷◌}
use fundroid.Exec.{ok, ◌>>=◌, attempt, map_err}
use fundroid.Text.{Text, codes}
use fundroid.Text.Numbers.{show}
use fundroid.Host.{Env}
use fundroid.Manager.Cleanup.{CleanupOutcome, cleanup_host_state}
use fundroid.Manager.Cleanup.Trash.{Careful, cleanup_host_state-Careful}
use fundroid.Daemon.Startup.{trash_name, sweep_base}
use fundroid.Daemon.Startup.Sweep.{Listed, In, sweep_base-trash}
use fundroid.Manager.Cleanup.{
  kill_guest_processes, guest_process_patterns, pkill_pattern, collect_guest_pids, collect_patterns,
  sort_pids, add_output, add_lines, seen_insert, run_command_allow_failure, command, from_parts,
  kill_open_file_holders, lit, padded, remove_cuttlefish_config_symlink, remove_tmp_dir,
  same_tmp_dir, remove_ephemeral_dirs, remove_network_devices, rename_to_trash,
  reset_cuttlefish_permissions_async, run_command_capture, seen_contains, sorted_insert,
  trash_then_purge_async,
}
use fundroid.Host.Os.{run, sleep_ms, epoch_secs, spawn}
use fundroid.Guest.{success}
use fundroid.Text.{lines, trim, is_whitespace, trim_end, trim_start}
use fundroid.Text.Numbers.{parse_i32, emit, is_digit, scan}
use fundroid.Host.Fs
use fundroid.Tests.{quiet, quiet_host, world}

-- Every program succeeds and prints a pid.
abbrev busy : Env
busy = record quiet {
  host = record quiet_host {
    output = λ n c.
        some (record { status = record { code = some 0; signal = none }; stdout = codes "700" });
  };
}

cleaned : (outcome : CleanupOutcome) × ((cleanup_host_state busy 1 (world false)).0 ≡ ok outcome)
unfolding cleanup_host_state ◌>>=◌ attempt map_err show kill_guest_processes guest_process_patterns
    pkill_pattern collect_guest_pids collect_patterns sort_pids add_output add_lines seen_insert
    run_command_allow_failure command from_parts kill_open_file_holders lit padded
    remove_cuttlefish_config_symlink same_tmp_dir remove_tmp_dir remove_ephemeral_dirs
    remove_network_devices rename_to_trash reset_cuttlefish_permissions_async run_command_capture
    seen_contains sorted_insert trash_then_purge_async run sleep_ms epoch_secs spawn success lines
    trim is_whitespace trim_end trim_start parse_i32 emit is_digit scan Fs.exists
cleaned = (_, refl)

cleanup_host_state-Careful_example :
    Careful busy 1 (world false) cleaned.0 (cleanup_host_state busy 1 (world false)).1
cleanup_host_state-Careful_example =
    cleanup_host_state-Careful busy 1 (world false) cleaned.0 cleaned.1

abbrev directory : List (Option (Option Text))
directory = some (some (codes "1")) ∷ some (some (codes "1.__trash__.100.42")) ∷ none ∷ []

sweep_base-trash_example :
    ((epoch pid : ℕ)
      → Listed (trash_name (show 1) epoch pid) directory
      → In (trash_name (show 1) epoch pid) (sweep_base (some directory)))
    × (In (show 1) (sweep_base (some directory)) → ⊥)
sweep_base-trash_example = sweep_base-trash directory 1
