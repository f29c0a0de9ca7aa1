-- ===== src/Manager/Logs/Finishes.antt =====
-- cuttlefish/cfctl/src/daemon/manager.rs: the end of reading logs and metadata.
use fundroid.Prelude.{ℕ, ◌≢◌, refl, arith, Option, none, some}
use fundroid.Exec.{Result, ok, err, stuck, ◌>>=◌}
use fundroid.Exec.Finishes.{Finishes, Finishes-bind, finishes_rules}
use fundroid.Text.{Text}
use fundroid.Protocol.{Message, LogsOptions}
use fundroid.Files.{PathBuf, external, inside}
use fundroid.Host.{Env, World, attempt_call}
use fundroid.Host.Unhindered.{Unhindered, attempt_call-Finishes, exists-Finishes}
use fundroid.Manager.Metadata.Finishes.{metadata-Finishes}
use fundroid.Manager.Logs.{
  tail_or_invalid, tail_file, path_present, log_has_boot_marker, console_log_has_boot_marker,
  run_log_has_boot_marker, guest_log_tail, tail_or_fail, found_or_fail, logs, status, describe,
}

module _ (env : Env) (since : ℕ) where
  tail_or_invalid-Finishes : (t : Option Text) → Finishes (Unhindered since) (tail_or_invalid t)
  unfolding tail_or_invalid
  tail_or_invalid-Finishes none = search finishes_rules
  tail_or_invalid-Finishes (some t) = search finishes_rules

  tail_read-Finishes :
      (t : World → Option Text)
      → Finishes (Unhindered since) (λ v. (attempt_call env >>= λ _. tail_or_invalid (t v)) v)
  tail_read-Finishes t = record {
    run = λ v u.
        (Finishes-bind (attempt_call env) (λ _. tail_or_invalid (t v))
            (attempt_call-Finishes env since) (λ _. tail_or_invalid-Finishes (t v))).run
          v u;
  }

  pub tail_file-Finishes :
      (path : PathBuf) (n : ℕ) → Finishes (Unhindered since) (tail_file env path n)
  unfolding tail_file
  tail_file-Finishes path n =
      search (finishes_rules, attempt_call-Finishes, tail_read-Finishes) depth 9

  pub path_present-Finishes :
      {E : Type 0} (path : PathBuf) → Finishes (Unhindered since) (path_present {E = E} env path)
  unfolding path_present
  path_present-Finishes (external t) = record {
    run = λ v u. ((λ h. cc), record { unlocked = u.unlocked; later = omega (arith, u.later) });
  }
  path_present-Finishes (inside s j) = search exists-Finishes

  log_has_boot_marker-Finishes :
      {E : Type 0} (path : PathBuf)
      → Finishes (Unhindered since) (log_has_boot_marker env path {E = E})
  unfolding log_has_boot_marker
  log_has_boot_marker-Finishes path =
      search (finishes_rules, path_present-Finishes, tail_file-Finishes) depth 9

  pub console_log_has_boot_marker-Finishes :
      {E : Type 0} (j : ℕ) → Finishes (Unhindered since) (console_log_has_boot_marker {E = E} env j)
  unfolding console_log_has_boot_marker
  console_log_has_boot_marker-Finishes j = search (log_has_boot_marker-Finishes)

  pub run_log_has_boot_marker-Finishes :
      {E : Type 0} (j : ℕ) → Finishes (Unhindered since) (run_log_has_boot_marker {E = E} env j)
  unfolding run_log_has_boot_marker
  run_log_has_boot_marker-Finishes j = search (log_has_boot_marker-Finishes)

  pub guest_log_tail-Finishes :
      (j : ℕ) (n : ℕ) → Finishes (Unhindered since) (guest_log_tail env j n)
  unfolding guest_log_tail
  guest_log_tail-Finishes j n = search (finishes_rules, exists-Finishes, tail_file-Finishes) depth 9

  tail_or_fail-Finishes :
      (j : ℕ) (r : Result Message (Option Text))
      → r ≢ stuck
      → Finishes (Unhindered since) (tail_or_fail env j r)
  unfolding tail_or_fail
  tail_or_fail-Finishes j (ok t) ends = search (finishes_rules) depth 7
  tail_or_fail-Finishes j (err e) ends = search (finishes_rules, exists-Finishes) depth 7
  tail_or_fail-Finishes j stuck ends = absurd (ends refl)

  found_or_fail-Finishes :
      {A : Type 0} (j : ℕ) (r : Result Message A)
      → r ≢ stuck
      → Finishes (Unhindered since) (found_or_fail j r)
  unfolding found_or_fail
  found_or_fail-Finishes j (ok t) ends = search (finishes_rules) depth 7
  found_or_fail-Finishes j (err e) ends = search (finishes_rules) depth 7
  found_or_fail-Finishes j stuck ends = absurd (ends refl)

  pub logs-Finishes :
      (j : ℕ) (n : Option ℕ) (options : LogsOptions)
      → Finishes (Unhindered since) (logs env j n options)
  unfolding logs
  logs-Finishes j n options =
      search
        (
          finishes_rules, metadata-Finishes, found_or_fail-Finishes, guest_log_tail-Finishes,
          tail_or_fail-Finishes,
        )
        depth 12

  pub status-Finishes : (j : ℕ) → Finishes (Unhindered since) (status env j)
  unfolding status
  status-Finishes j = search (finishes_rules, metadata-Finishes) depth 9

  pub describe-Finishes : (j : ℕ) (n : Option ℕ) → Finishes (Unhindered since) (describe env j n)
  unfolding describe
  describe-Finishes j n =
      search (finishes_rules, exists-Finishes, metadata-Finishes, guest_log_tail-Finishes) depth 9
