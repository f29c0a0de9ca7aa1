-- ===== src/Manager/Cleanup/Finishes.antt =====
-- cuttlefish/cfctl/src/daemon/manager.rs: the end of the cleanup.
use fundroid.Prelude.{ℕ, zero, suc, ◌≢◌, refl, arith, Option, none, some, List, [], ◌∷◌}
use fundroid.Exec.{Result, ok, err, stuck}
use fundroid.Exec.Finishes.{Finishes, Finishes-bind-attempt, Finishes-bind, finishes_rules}
use fundroid.Text.{Text}
use fundroid.Text.Numbers.{Pid}
use fundroid.Protocol.{Message}
use fundroid.Files.{Slot}
use fundroid.Host.{Env, Command, TmpDir}
use fundroid.Host.Unhindered.{
  Unhindered, attempt_call-Finishes, exists-Finishes, epoch_secs-Finishes, sleep_ms-Finishes,
  run-Finishes, spawn-Finishes,
}
use fundroid.Manager.Cleanup.{
  run_command_allow_failure, run_command_capture, pkill_answer, pkill_pattern, pkill_all, kill_each,
  kill_remaining, kill_guest_processes, collect_patterns, collect_guest_pids,
  remove_network_devices, remove_tmp_dir, remove_ephemeral_dirs, remove_cuttlefish_config_symlink,
  kill_lines, kill_holders, kill_open_file_holders, rename_to_trash, trash_then_purge_async,
  trash_dirs, cleanup_host_state, preflight_cleanup, reset_cuttlefish_permissions_async,
  reset_cuttlefish_permissions,
}

ruleset host_calls = (
  finishes_rules, attempt_call-Finishes, exists-Finishes, epoch_secs-Finishes, sleep_ms-Finishes,
  run-Finishes, spawn-Finishes,
)

module _ (env : Env) (since : ℕ) where
  pub run_command_allow_failure-Finishes :
      (c : Command) → Finishes (Unhindered since) (run_command_allow_failure env c)
  unfolding run_command_allow_failure
  run_command_allow_failure-Finishes c = search (host_calls)

  pub run_command_capture-Finishes :
      (c : Command) → Finishes (Unhindered since) (run_command_capture env c)
  unfolding run_command_capture
  run_command_capture-Finishes c = search (host_calls)

  pkill_answer-Finishes :
      (code : Option ℕ) (p : Text) → Finishes (Unhindered since) (pkill_answer code p)
  unfolding pkill_answer
  pkill_answer-Finishes none p = search (host_calls)
  pkill_answer-Finishes (some zero) p = search (host_calls)
  pkill_answer-Finishes (some (suc zero)) p = search (host_calls)
  pkill_answer-Finishes (some (suc (suc c))) p = search (host_calls)

  pub pkill_pattern-Finishes :
      (p : Text) (s : Option Text) → Finishes (Unhindered since) (pkill_pattern env p s)
  unfolding pkill_pattern
  pkill_pattern-Finishes p s = search (host_calls, pkill_answer-Finishes) depth 9

  pkill_all-Finishes : (ps : List Text) → Finishes (Unhindered since) (pkill_all env ps)
  unfolding pkill_all
  pkill_all-Finishes [] = search (host_calls) depth 9
  pkill_all-Finishes (p ∷ ps) =
      Finishes-bind _ _ (search (host_calls, pkill_pattern-Finishes)) (λ _. pkill_all-Finishes ps)

  pub collect_patterns-Finishes :
      (ps : List Text) (seen : List Pid)
      → Finishes (Unhindered since) (collect_patterns env ps seen)
  unfolding collect_patterns
  collect_patterns-Finishes [] seen = search (host_calls) depth 9
  collect_patterns-Finishes (p ∷ ps) seen =
      search (host_calls, collect_patterns-Finishes ps) depth 9

  pub collect_guest_pids-Finishes : (j : ℕ) → Finishes (Unhindered since) (collect_guest_pids env j)
  unfolding collect_guest_pids
  collect_guest_pids-Finishes j = search (host_calls, collect_patterns-Finishes) depth 9

  kill_each-Finishes : (ps : List Pid) → Finishes (Unhindered since) (kill_each env ps)
  unfolding kill_each
  kill_each-Finishes [] = search (host_calls) depth 9
  kill_each-Finishes (p ∷ ps) =
      Finishes-bind _ _ (search (host_calls, run_command_allow_failure-Finishes))
        (λ _. kill_each-Finishes ps)

  kill_remaining-Finishes :
      (j : ℕ) (ps : List Pid) → Finishes (Unhindered since) (kill_remaining env j ps)
  unfolding kill_remaining
  kill_remaining-Finishes j [] = search (host_calls) depth 9
  kill_remaining-Finishes j (p ∷ ps) =
      search (host_calls, kill_each-Finishes, collect_guest_pids-Finishes) depth 9

  pub kill_guest_processes-Finishes :
      (j : ℕ) → Finishes (Unhindered since) (kill_guest_processes env j)
  unfolding kill_guest_processes
  kill_guest_processes-Finishes j =
      search (host_calls, pkill_all-Finishes, collect_guest_pids-Finishes, kill_remaining-Finishes)
        depth 9

  pub remove_network_devices-Finishes :
      (j : ℕ) → Finishes (Unhindered since) (remove_network_devices env j)
  unfolding remove_network_devices
  remove_network_devices-Finishes j =
      search (host_calls, run_command_allow_failure-Finishes) depth 9

  remove_tmp_dir-Finishes :
      (d : TmpDir) (j : ℕ) → Finishes (Unhindered since) (remove_tmp_dir env d j)
  unfolding remove_tmp_dir
  remove_tmp_dir-Finishes d j = record {
    run = λ v u. (ground arith, record { unlocked = u.unlocked; later = omega (arith, u.later) });
  }

  pub remove_ephemeral_dirs-Finishes :
      (j : ℕ) → Finishes (Unhindered since) (remove_ephemeral_dirs env j)
  unfolding remove_ephemeral_dirs
  remove_ephemeral_dirs-Finishes j = search (host_calls, remove_tmp_dir-Finishes) depth 9

  pub remove_cuttlefish_config_symlink-Finishes :
      Finishes (Unhindered since) (remove_cuttlefish_config_symlink env)
  unfolding remove_cuttlefish_config_symlink
  remove_cuttlefish_config_symlink-Finishes = search (host_calls) depth 9

  kill_lines-Finishes : (ls : List Text) → Finishes (Unhindered since) (kill_lines env ls)
  unfolding kill_lines
  kill_lines-Finishes [] = search (host_calls) depth 9
  kill_lines-Finishes (l ∷ ls) =
      Finishes-bind _ _ (search (host_calls, run_command_allow_failure-Finishes))
        (λ _. kill_lines-Finishes ls)

  kill_holders-Finishes :
      (r : Result Message Text) → r ≢ stuck → Finishes (Unhindered since) (kill_holders env r)
  unfolding kill_holders
  kill_holders-Finishes (ok out) ends = search (host_calls, kill_lines-Finishes)
  kill_holders-Finishes (err e) ends = search (host_calls)
  kill_holders-Finishes stuck ends = absurd (ends refl)

  pub kill_open_file_holders-Finishes :
      (ps : List Text) → Finishes (Unhindered since) (kill_open_file_holders env ps)
  unfolding kill_open_file_holders
  kill_open_file_holders-Finishes [] = search (host_calls) depth 9
  kill_open_file_holders-Finishes (p ∷ ps) =
      Finishes-bind-attempt _ _ (search run_command_capture-Finishes) λ out ends.
        Finishes-bind _ _ (kill_holders-Finishes out ends) λ _. kill_open_file_holders-Finishes ps

  pub preflight_cleanup-Finishes : (j : ℕ) → Finishes (Unhindered since) (preflight_cleanup env j)
  unfolding preflight_cleanup
  preflight_cleanup-Finishes j =
      search
        (
          host_calls, kill_guest_processes-Finishes, remove_network_devices-Finishes,
          remove_ephemeral_dirs-Finishes, remove_cuttlefish_config_symlink-Finishes,
        )
        depth 9

  pub reset_cuttlefish_permissions-Finishes :
      Finishes (Unhindered since) (reset_cuttlefish_permissions env)
  unfolding reset_cuttlefish_permissions
  reset_cuttlefish_permissions-Finishes =
      search (host_calls, run_command_allow_failure-Finishes) depth 9

module _ (since : ℕ) where
  pub reset_cuttlefish_permissions_async-Finishes :
      Finishes (Unhindered since) reset_cuttlefish_permissions_async
  unfolding reset_cuttlefish_permissions_async
  reset_cuttlefish_permissions_async-Finishes = search (spawn-Finishes)

module _ (env : Env) (since j : ℕ) where
  rename_to_trash-Finishes : (s : Slot) → Finishes (Unhindered since) (rename_to_trash env s j)
  unfolding rename_to_trash
  rename_to_trash-Finishes s = record {
    run = λ v u. (
      ground arith,
      record { unlocked = λ h. ground (arith, u.unlocked h); later = ground (arith, u.later) },
    );
  }

  pub trash_then_purge_async-Finishes :
      (s : Slot) → Finishes (Unhindered since) (trash_then_purge_async env s j)
  unfolding trash_then_purge_async
  trash_then_purge_async-Finishes s = search (host_calls, rename_to_trash-Finishes) depth 9

  trash_dirs-Finishes : (ps : List Pid) → Finishes (Unhindered since) (trash_dirs env j ps)
  unfolding trash_dirs
  trash_dirs-Finishes [] = search (host_calls, trash_then_purge_async-Finishes) depth 9
  trash_dirs-Finishes (p ∷ ps) = search (host_calls) depth 9

  pub cleanup_host_state-Finishes : Finishes (Unhindered since) (cleanup_host_state env j)
  unfolding cleanup_host_state
  cleanup_host_state-Finishes =
      search
        (
          host_calls, kill_guest_processes-Finishes, remove_network_devices-Finishes,
          remove_ephemeral_dirs-Finishes, remove_cuttlefish_config_symlink-Finishes,
          kill_open_file_holders-Finishes, collect_guest_pids-Finishes, trash_dirs-Finishes,
          reset_cuttlefish_permissions_async-Finishes,
        )
        depth 16
