-- ===== src/Manager/Cleanup/Untouched.antt =====
-- cuttlefish/cfctl/src/daemon/manager.rs: the cleanup, for other instances.
use fundroid.Prelude.{ℕ, zero, suc, arith, ◌≢◌, refl, Option, none, some, List, [], ◌∷◌}
use fundroid.Exec.{Result, ok, err, stuck}
use fundroid.Exec.Keeps.{Keeps, Keeps-bind, keeps_rules}
use fundroid.Text.{Text}
use fundroid.Text.Numbers.{Pid}
use fundroid.Protocol.{Message}
use fundroid.Files.{Slot}
use fundroid.Host.{Env, World, Command, TmpDir}
use fundroid.Host.Untouched.{
  Untouched, Untouched-same, attempt_call-Untouched, exists-Untouched, epoch_secs-Untouched,
  sleep_ms-Untouched, run-Untouched, spawn-Untouched,
}
use fundroid.Manager.Cleanup.{
  run_command_allow_failure, run_command_capture, pkill_answer, pkill_pattern, pkill_all, kill_each,
  kill_remaining, kill_guest_processes, collect_patterns, collect_guest_pids,
  remove_network_devices, remove_tmp_dir, remove_ephemeral_dirs, remove_cuttlefish_config_symlink,
  kill_lines, kill_holders, kill_open_file_holders, rename_to_trash, trash_then_purge_async,
  trash_dirs, cleanup_host_state, preflight_cleanup, reset_cuttlefish_permissions_async,
  reset_cuttlefish_permissions,
}

ruleset host_calls = (
  keeps_rules, attempt_call-Untouched, exists-Untouched, epoch_secs-Untouched, sleep_ms-Untouched,
  run-Untouched, spawn-Untouched,
)

module _ (env : Env) (i : ℕ) (w : World) where
  pub run_command_allow_failure-Untouched :
      (c : Command) → Keeps (Untouched i w) (run_command_allow_failure env c)
  unfolding run_command_allow_failure
  run_command_allow_failure-Untouched c = search (host_calls)

  pub run_command_capture-Untouched :
      (c : Command) → Keeps (Untouched i w) (run_command_capture env c)
  unfolding run_command_capture
  run_command_capture-Untouched c = search (host_calls)

  pkill_answer-Untouched :
      (code : Option ℕ) (p : Text) → Keeps (Untouched i w) (pkill_answer code p)
  unfolding pkill_answer
  pkill_answer-Untouched none p = search (host_calls)
  pkill_answer-Untouched (some zero) p = search (host_calls)
  pkill_answer-Untouched (some (suc zero)) p = search (host_calls)
  pkill_answer-Untouched (some (suc (suc c))) p = search (host_calls)

  pub pkill_pattern-Untouched :
      (p : Text) (s : Option Text) → Keeps (Untouched i w) (pkill_pattern env p s)
  unfolding pkill_pattern
  pkill_pattern-Untouched p s = search (host_calls, pkill_answer-Untouched) depth 9

  pkill_all-Untouched : (ps : List Text) → Keeps (Untouched i w) (pkill_all env ps)
  unfolding pkill_all
  pkill_all-Untouched [] = search (host_calls) depth 9
  pkill_all-Untouched (p ∷ ps) =
      Keeps-bind _ _ (search (host_calls, pkill_pattern-Untouched)) (λ _. pkill_all-Untouched ps)

  pub collect_patterns-Untouched :
      (ps : List Text) (seen : List Pid) → Keeps (Untouched i w) (collect_patterns env ps seen)
  unfolding collect_patterns
  collect_patterns-Untouched [] seen = search (host_calls) depth 9
  collect_patterns-Untouched (p ∷ ps) seen =
      search (host_calls, collect_patterns-Untouched ps) depth 9

  pub collect_guest_pids-Untouched : (j : ℕ) → Keeps (Untouched i w) (collect_guest_pids env j)
  unfolding collect_guest_pids
  collect_guest_pids-Untouched j = search (host_calls, collect_patterns-Untouched) depth 9

  kill_each-Untouched : (ps : List Pid) → Keeps (Untouched i w) (kill_each env ps)
  unfolding kill_each
  kill_each-Untouched [] = search (host_calls) depth 9
  kill_each-Untouched (p ∷ ps) =
      Keeps-bind _ _ (search (host_calls, run_command_allow_failure-Untouched))
        (λ _. kill_each-Untouched ps)

  kill_remaining-Untouched :
      (j : ℕ) (ps : List Pid) → Keeps (Untouched i w) (kill_remaining env j ps)
  unfolding kill_remaining
  kill_remaining-Untouched j [] = search (host_calls) depth 9
  kill_remaining-Untouched j (p ∷ ps) =
      search (host_calls, kill_each-Untouched, collect_guest_pids-Untouched) depth 9

  pub kill_guest_processes-Untouched : (j : ℕ) → Keeps (Untouched i w) (kill_guest_processes env j)
  unfolding kill_guest_processes
  kill_guest_processes-Untouched j =
      search
        (host_calls, pkill_all-Untouched, collect_guest_pids-Untouched, kill_remaining-Untouched)
        depth 9

  pub remove_network_devices-Untouched :
      (j : ℕ) → Keeps (Untouched i w) (remove_network_devices env j)
  unfolding remove_network_devices
  remove_network_devices-Untouched j =
      search (host_calls, run_command_allow_failure-Untouched) depth 9

  remove_tmp_dir-Untouched : (d : TmpDir) (j : ℕ) → Keeps (Untouched i w) (remove_tmp_dir env d j)
  unfolding remove_tmp_dir
  remove_tmp_dir-Untouched d j = record { run = λ v u. Untouched-same _ u refl refl refl }

  pub remove_ephemeral_dirs-Untouched :
      (j : ℕ) → Keeps (Untouched i w) (remove_ephemeral_dirs env j)
  unfolding remove_ephemeral_dirs
  remove_ephemeral_dirs-Untouched j = search (host_calls, remove_tmp_dir-Untouched) depth 9

  pub remove_cuttlefish_config_symlink-Untouched :
      Keeps (Untouched i w) (remove_cuttlefish_config_symlink env)
  unfolding remove_cuttlefish_config_symlink
  remove_cuttlefish_config_symlink-Untouched = search (host_calls) depth 9

  kill_lines-Untouched : (ls : List Text) → Keeps (Untouched i w) (kill_lines env ls)
  unfolding kill_lines
  kill_lines-Untouched [] = search (host_calls) depth 9
  kill_lines-Untouched (l ∷ ls) =
      Keeps-bind _ _ (search (host_calls, run_command_allow_failure-Untouched))
        (λ _. kill_lines-Untouched ls)

  kill_holders-Untouched : (r : Result Message Text) → Keeps (Untouched i w) (kill_holders env r)
  unfolding kill_holders
  kill_holders-Untouched (ok out) = search (host_calls, kill_lines-Untouched)
  kill_holders-Untouched (err e) = search (host_calls)
  kill_holders-Untouched stuck = search (host_calls)

  pub kill_open_file_holders-Untouched :
      (ps : List Text) → Keeps (Untouched i w) (kill_open_file_holders env ps)
  unfolding kill_open_file_holders
  kill_open_file_holders-Untouched [] = search (host_calls) depth 9
  kill_open_file_holders-Untouched (p ∷ ps) =
      Keeps-bind _ _ (search (host_calls, run_command_capture-Untouched)) λ out.
        Keeps-bind _ _ (search kill_holders-Untouched) (λ _. kill_open_file_holders-Untouched ps)

  pub preflight_cleanup-Untouched : (j : ℕ) → Keeps (Untouched i w) (preflight_cleanup env j)
  unfolding preflight_cleanup
  preflight_cleanup-Untouched j =
      search
        (
          host_calls, kill_guest_processes-Untouched, remove_network_devices-Untouched,
          remove_ephemeral_dirs-Untouched, remove_cuttlefish_config_symlink-Untouched,
        )
        depth 9

  pub reset_cuttlefish_permissions-Untouched :
      Keeps (Untouched i w) (reset_cuttlefish_permissions env)
  unfolding reset_cuttlefish_permissions
  reset_cuttlefish_permissions-Untouched =
      search (host_calls, run_command_allow_failure-Untouched) depth 9

module _ (i : ℕ) (w : World) where
  pub reset_cuttlefish_permissions_async-Untouched :
      Keeps (Untouched i w) reset_cuttlefish_permissions_async
  unfolding reset_cuttlefish_permissions_async
  reset_cuttlefish_permissions_async-Untouched = search (spawn-Untouched)

module _ (env : Env) (i j : ℕ) (other : i ≢ j) (w : World) where
  rename_to_trash-Untouched : (s : Slot) → Keeps (Untouched i w) (rename_to_trash env s j)
  unfolding rename_to_trash
  rename_to_trash-Untouched s = record {
    run = λ v u. record {
      disk_at = λ t. ground (arith, u.disk_at t);
      cache_at = ground (arith, u.cache_at);
      registry_at = ground (arith, u.registry_at);
    };
  }

  pub trash_then_purge_async-Untouched :
      (s : Slot) → Keeps (Untouched i w) (trash_then_purge_async env s j)
  unfolding trash_then_purge_async
  trash_then_purge_async-Untouched s = search (host_calls, rename_to_trash-Untouched) depth 9

  trash_dirs-Untouched : (ps : List Pid) → Keeps (Untouched i w) (trash_dirs env j ps)
  unfolding trash_dirs
  trash_dirs-Untouched [] = search (host_calls, trash_then_purge_async-Untouched) depth 9
  trash_dirs-Untouched (p ∷ ps) = search (host_calls) depth 9

  pub cleanup_host_state-Untouched : Keeps (Untouched i w) (cleanup_host_state env j)
  unfolding cleanup_host_state
  cleanup_host_state-Untouched =
      search
        (
          host_calls, kill_guest_processes-Untouched, remove_network_devices-Untouched,
          remove_ephemeral_dirs-Untouched, remove_cuttlefish_config_symlink-Untouched,
          kill_open_file_holders-Untouched, collect_guest_pids-Untouched, trash_dirs-Untouched,
          reset_cuttlefish_permissions_async-Untouched,
        )
        depth 16
