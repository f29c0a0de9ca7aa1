-- ===== src/Manager/Logs/Untouched.antt =====
-- cuttlefish/cfctl/src/daemon/manager.rs: reading logs and metadata, for every instance.
use fundroid.Prelude.{ℕ, refl, Option, none, some}
use fundroid.Exec.{Result, ok, err, stuck, ◌>>=◌}
use fundroid.Exec.Keeps.{Keeps, Keeps-bind, keeps_rules}
use fundroid.Text.{Text}
use fundroid.Protocol.{Message, LogsOptions}
use fundroid.Files.{PathBuf, external, inside}
use fundroid.Host.{Env, World, attempt_call}
use fundroid.Host.Untouched.{Untouched, Untouched-same, attempt_call-Untouched, exists-Untouched}
use fundroid.Manager.Metadata.Untouched.{metadata-Untouched}
use fundroid.Manager.Logs.{
  tail_or_invalid, tail_file, path_present, log_has_boot_marker, console_log_has_boot_marker,
  run_log_has_boot_marker, guest_log_tail, tail_or_fail, found_or_fail, logs, status, describe,
}

module _ (env : Env) (i : ℕ) (w : World) where
  tail_or_invalid-Untouched : (t : Option Text) → Keeps (Untouched i w) (tail_or_invalid t)
  unfolding tail_or_invalid
  tail_or_invalid-Untouched none = search keeps_rules
  tail_or_invalid-Untouched (some t) = search keeps_rules

  tail_read-Untouched :
      (t : World → Option Text)
      → Keeps (Untouched i w) (λ v. (attempt_call env >>= λ _. tail_or_invalid (t v)) v)
  tail_read-Untouched t = record {
    run = λ v u.
        (Keeps-bind (attempt_call env) (λ _. tail_or_invalid (t v)) (attempt_call-Untouched env i w)
            (λ _. tail_or_invalid-Untouched (t v))).run
          v u;
  }

  pub tail_file-Untouched : (path : PathBuf) (n : ℕ) → Keeps (Untouched i w) (tail_file env path n)
  unfolding tail_file
  tail_file-Untouched path n =
      search (keeps_rules, attempt_call-Untouched, tail_read-Untouched) depth 9

  pub path_present-Untouched :
      {E : Type 0} (path : PathBuf) → Keeps (Untouched i w) (path_present {E = E} env path)
  unfolding path_present
  path_present-Untouched (external t) = record { run = λ v u. Untouched-same _ u refl refl refl }
  path_present-Untouched (inside s j) = search exists-Untouched

  log_has_boot_marker-Untouched :
      {E : Type 0} (path : PathBuf) → Keeps (Untouched i w) (log_has_boot_marker env path {E = E})
  unfolding log_has_boot_marker
  log_has_boot_marker-Untouched path =
      search (keeps_rules, path_present-Untouched, tail_file-Untouched) depth 9

  pub console_log_has_boot_marker-Untouched :
      {E : Type 0} (j : ℕ) → Keeps (Untouched i w) (console_log_has_boot_marker {E = E} env j)
  unfolding console_log_has_boot_marker
  console_log_has_boot_marker-Untouched j = search (log_has_boot_marker-Untouched)

  pub run_log_has_boot_marker-Untouched :
      {E : Type 0} (j : ℕ) → Keeps (Untouched i w) (run_log_has_boot_marker {E = E} env j)
  unfolding run_log_has_boot_marker
  run_log_has_boot_marker-Untouched j = search (log_has_boot_marker-Untouched)

  pub guest_log_tail-Untouched : (j : ℕ) (n : ℕ) → Keeps (Untouched i w) (guest_log_tail env j n)
  unfolding guest_log_tail
  guest_log_tail-Untouched j n = search (keeps_rules, exists-Untouched, tail_file-Untouched) depth 9

  tail_or_fail-Untouched :
      (j : ℕ) (r : Result Message (Option Text)) → Keeps (Untouched i w) (tail_or_fail env j r)
  unfolding tail_or_fail
  tail_or_fail-Untouched j (ok t) = search (keeps_rules) depth 7
  tail_or_fail-Untouched j (err e) = search (keeps_rules, exists-Untouched) depth 7
  tail_or_fail-Untouched j stuck = search (keeps_rules) depth 7

  found_or_fail-Untouched :
      {A : Type 0} (j : ℕ) (r : Result Message A) → Keeps (Untouched i w) (found_or_fail j r)
  unfolding found_or_fail
  found_or_fail-Untouched j (ok t) = search (keeps_rules) depth 7
  found_or_fail-Untouched j (err e) = search (keeps_rules) depth 7
  found_or_fail-Untouched j stuck = search (keeps_rules) depth 7

  pub logs-Untouched :
      (j : ℕ) (n : Option ℕ) (options : LogsOptions) → Keeps (Untouched i w) (logs env j n options)
  unfolding logs
  logs-Untouched j n options =
      search
        (
          keeps_rules, metadata-Untouched, found_or_fail-Untouched, guest_log_tail-Untouched,
          tail_or_fail-Untouched,
        )
        depth 12

  pub status-Untouched : (j : ℕ) → Keeps (Untouched i w) (status env j)
  unfolding status
  status-Untouched j = search (keeps_rules, metadata-Untouched) depth 9

  pub describe-Untouched : (j : ℕ) (n : Option ℕ) → Keeps (Untouched i w) (describe env j n)
  unfolding describe
  describe-Untouched j n =
      search (keeps_rules, exists-Untouched, metadata-Untouched, guest_log_tail-Untouched) depth 9
