-- ===== src/Manager/Cleanup/Trash.antt =====
-- cuttlefish/cfctl/src/daemon/manager.rs: when a cleanup trashes the directories of an instance.
use fundroid.Prelude.{ℕ, ◌≡◌, ◌≢◌, refl, List, [], ◌∷◌, ◌++◌, is_empty}
use fundroid.Exec.{ok, ◌>>=◌, ◌>>◌, pure}
use fundroid.Exec.Keeps.{Keeps, keeps_rules}
use fundroid.Exec.Leaves.{Leaves, Leaves-pure, Leaves-then, Leaves-bind}
use fundroid.Text.Numbers.{Pid}
use fundroid.Host.{Env, World}
use fundroid.Host.Untouched.{Untouched, Untouched-refl}
use fundroid.Manager.Cleanup.{
  CleanupOutcome, from_parts, trash_dirs, first_steps, cleanup_host_state,
  reset_cuttlefish_permissions_async,
}
use fundroid.Manager.Cleanup.Untouched.{
  kill_guest_processes-Untouched, remove_network_devices-Untouched, remove_ephemeral_dirs-Untouched,
  remove_cuttlefish_config_symlink-Untouched, kill_open_file_holders-Untouched,
  collect_guest_pids-Untouched, reset_cuttlefish_permissions_async-Untouched,
}

module _ (env : Env) (id : ℕ) (w : World) where
  -- The outcome tells the truth about the processes; while one is left, nothing of the instance is
  -- touched.
  abbrev pub Careful : CleanupOutcome → World → Type 0
  Careful outcome v =
      (outcome.guest_processes_killed ≡ is_empty outcome.remaining_pids)
      × (outcome.remaining_pids ≢ [] → Untouched id w v)

  trash_nothing : (p : Pid) (ps : List Pid) → Keeps (Untouched id w) (trash_dirs env id (p ∷ ps))
  unfolding trash_dirs
  trash_nothing p ps = search keeps_rules

  last_steps-Careful :
      (remaining : List Pid)
      → Leaves (Untouched id w) Careful (do
        trashed ← trash_dirs env id remaining
        reset_cuttlefish_permissions_async
        pure (from_parts remaining (first_steps ++ (trashed ++ ("reset_permissions" ∷ [])))))
  unfolding from_parts
  last_steps-Careful [] =
      Leaves-bind {R = λ t v. Unit {0}} _ _ (record { after = λ s p a h. tt })
        λ trashed.
          Leaves-bind {R = λ t v. Unit {0}} _ _ (record { after = λ s p a h. tt })
            λ u. Leaves-pure _ λ s p. (refl, λ some_left. absurd (some_left refl))
  last_steps-Careful (p ∷ ps) = Leaves-then _ _ (trash_nothing p ps) λ trashed.
      Leaves-then _ _ (reset_cuttlefish_permissions_async-Untouched id w)
        λ u. Leaves-pure _ λ s kept. (refl, λ some_left. kept)

  cleanup_host_state-Leaves : Leaves (Untouched id w) Careful (cleanup_host_state env id)
  unfolding cleanup_host_state
  cleanup_host_state-Leaves = Leaves-then _ _ (kill_guest_processes-Untouched env id w id) λ a.
      Leaves-then _ _ (remove_network_devices-Untouched env id w id) λ b.
        Leaves-then _ _ (remove_ephemeral_dirs-Untouched env id w id) λ c.
          Leaves-then _ _ (remove_cuttlefish_config_symlink-Untouched env id w) λ d.
            Leaves-then _ _ (kill_open_file_holders-Untouched env id w _)
              λ e. Leaves-then _ _ (collect_guest_pids-Untouched env id w id) last_steps-Careful

  -- A cleanup says that the processes were killed exactly if it lists none as left; and as long as
  -- one is left, the instance directory and the assembly directory stay, and the instance's other
  -- files, its metadata and its handle too, whatever the programs that it runs answer. Its
  -- directories under /tmp, which it removes before, are not among them.
  pub cleanup_host_state-Careful :
      (outcome : CleanupOutcome)
      → (cleanup_host_state env id w).0 ≡ ok outcome
      → Careful outcome (cleanup_host_state env id w).1
  cleanup_host_state-Careful outcome done =
      cleanup_host_state-Leaves.after w (Untouched-refl id w) outcome done
