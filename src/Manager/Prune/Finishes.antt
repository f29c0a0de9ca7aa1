-- ===== src/Manager/Prune/Finishes.antt =====
-- cuttlefish/cfctl/src/daemon/manager.rs: the end of listing and pruning.
use fundroid.Prelude.{ℕ, ◌≢◌, refl, arith, Option, none, some, List, [], ◌∷◌}
use fundroid.Exec.{Result, ok, err, stuck, attempt, ◌>>=◌}
use fundroid.Exec.Finishes.{
  Finishes, Finishes-bind-attempt, Finishes-bind, Finishes-pure, finishes_rules,
}
use fundroid.Protocol.{Message, InstanceId}
use fundroid.Files.{InstanceMetadata}
use fundroid.Host.{Env, Action, DirEntry, ReadDir, not_found, refused, entries}
use fundroid.Host.Unhindered.{Unhindered, epoch_secs-Finishes}
use fundroid.Manager.Metadata.{by_new_manager}
use fundroid.Manager.Metadata.Finishes.{
  metadata_finishes, metadata-Finishes, by_new_manager-Finishes,
}
use fundroid.Manager.Cleanup.{CleanupOutcome}
use fundroid.Manager.Destroy.{finish_destroy}
use fundroid.Manager.Destroy.Finishes.{prepare_destroy-Finishes, finish_destroy-Finishes}
use fundroid.Manager.Prune.{
  after_cleanup, keep_metadata, prune_instance, prune_and_tally, prune_all_loaded,
  prune_expired_loaded, prune_entry, prune_entries, prune_all_read, prune_expired_read,
  prune_all_instances, prune_expired_instances, read_instances, entry_id, entry_error, list_entry,
  list_entries, list_read, list_instances,
}

module _ (env : Env) (since j : ℕ) where
  after_cleanup-Finishes :
      (r : Result Message CleanupOutcome)
      → r ≢ stuck
      → Finishes (Unhindered since) (after_cleanup env j r)
  unfolding after_cleanup
  after_cleanup-Finishes (ok outcome) ends = search (finishes_rules, metadata_finishes) depth 12
  after_cleanup-Finishes (err e) ends = search (finishes_rules, metadata_finishes) depth 12
  after_cleanup-Finishes stuck ends = absurd (ends refl)

  keep_metadata-Finishes :
      (m : Option InstanceMetadata) → Finishes (Unhindered since) (keep_metadata j m)
  unfolding keep_metadata
  keep_metadata-Finishes none = search finishes_rules
  keep_metadata-Finishes (some m) = search metadata_finishes

  cleanup-Finishes :
      Finishes
        (Unhindered since)
        (attempt {F = Message} (finish_destroy env j) >>= after_cleanup env j)
  cleanup-Finishes =
      search (finishes_rules, finish_destroy-Finishes, after_cleanup-Finishes) depth 9

module _ (env : Env) (since j : ℕ) where
  by_another-Finishes :
      Finishes
        (Unhindered since)
        (by_new_manager (attempt {F = Message} (finish_destroy env j) >>= after_cleanup env j))
  by_another-Finishes = by_new_manager-Finishes since _ (cleanup-Finishes env since j)

  pub prune_instance-Finishes : Finishes (Unhindered since) (prune_instance env j)
  unfolding prune_instance
  prune_instance-Finishes =
      search (finishes_rules, prepare_destroy-Finishes, by_another-Finishes, keep_metadata-Finishes)
        depth 12

  pub prune_and_tally-Finishes :
      (counts : ℕ × ℕ) → Finishes (Unhindered since) (prune_and_tally env j counts)
  unfolding prune_and_tally
  prune_and_tally-Finishes counts = search (finishes_rules, prune_instance-Finishes) depth 9

module _ (env : Env) (since : ℕ) where
  loaded_all-Finishes :
      (j : ℕ) (c : ℕ × ℕ) (r : Result Message InstanceMetadata)
      → r ≢ stuck
      → Finishes (Unhindered since) (prune_all_loaded env j c r)
  unfolding prune_all_loaded
  loaded_all-Finishes j c (ok m) ends = search (finishes_rules, prune_and_tally-Finishes) depth 9
  loaded_all-Finishes j c (err e) ends = search finishes_rules
  loaded_all-Finishes j c stuck ends = absurd (ends refl)

  loaded_expired-Finishes :
      (cutoff j : ℕ) (c : ℕ × ℕ) (r : Result Message InstanceMetadata)
      → r ≢ stuck
      → Finishes (Unhindered since) (prune_expired_loaded env cutoff j c r)
  unfolding prune_expired_loaded
  loaded_expired-Finishes cutoff j c (ok m) ends =
      search (finishes_rules, prune_and_tally-Finishes) depth 9
  loaded_expired-Finishes cutoff j c (err e) ends = search finishes_rules
  loaded_expired-Finishes cutoff j c stuck ends = absurd (ends refl)

  entry_error-Finishes : {A : Type 0} → Finishes (Unhindered since) (entry_error {A = A})
  entry_error-Finishes = record { run = λ v u. ((λ h. cc), u) }

  read_instances-Finishes : Finishes (Unhindered since) (read_instances env)
  unfolding read_instances
  read_instances-Finishes = record {
    run = λ v u. ((λ h. cc), record { unlocked = u.unlocked; later = omega (arith, u.later) });
  }

module _ (env : Env) (since : ℕ)
    (loaded : InstanceId → ℕ × ℕ → Result Message InstanceMetadata → Action (ℕ × ℕ))
    (ends : (j : ℕ) (c : ℕ × ℕ) (r : Result Message InstanceMetadata)
      → r ≢ stuck
      → Finishes (Unhindered since) (loaded j c r)) where
  prune_entry-Finishes :
      (o : Option InstanceId) (c : ℕ × ℕ) → Finishes (Unhindered since) (prune_entry env loaded o c)
  unfolding prune_entry
  prune_entry-Finishes none c = search finishes_rules
  prune_entry-Finishes (some id) c =
      Finishes-bind-attempt _ _ (metadata-Finishes env since id) λ r ended. ends id c r ended

  prune_entries-Finishes :
      (es : List (Option DirEntry)) (c : ℕ × ℕ)
      → Finishes (Unhindered since) (prune_entries env loaded es c)
  unfolding prune_entries
  prune_entries-Finishes [] c = search finishes_rules
  prune_entries-Finishes (none ∷ es) c = entry_error-Finishes env since
  prune_entries-Finishes (some e ∷ es) c =
      Finishes-bind _ _ (prune_entry-Finishes (entry_id e) c) λ c'. prune_entries-Finishes es c'

module _ (env : Env) (since : ℕ) where
  prune_all_read-Finishes : (r : ReadDir) → Finishes (Unhindered since) (prune_all_read env r)
  unfolding prune_all_read
  prune_all_read-Finishes not_found = search finishes_rules
  prune_all_read-Finishes refused = entry_error-Finishes env since
  prune_all_read-Finishes (entries es) =
      prune_entries-Finishes env since _ (loaded_all-Finishes env since) es (0, 0)

  prune_expired_read-Finishes :
      (max_age : ℕ) (r : ReadDir) → Finishes (Unhindered since) (prune_expired_read env max_age r)
  unfolding prune_expired_read
  prune_expired_read-Finishes max_age not_found = search finishes_rules
  prune_expired_read-Finishes max_age refused = entry_error-Finishes env since
  prune_expired_read-Finishes max_age (entries es) =
      Finishes-bind _ _ (epoch_secs-Finishes env since)
        λ now. prune_entries-Finishes env since _ (loaded_expired-Finishes env since _) es (0, 0)

  pub prune_all_instances-Finishes : Finishes (Unhindered since) (prune_all_instances env)
  unfolding prune_all_instances
  prune_all_instances-Finishes =
      search (finishes_rules, read_instances-Finishes, prune_all_read-Finishes)

  pub prune_expired_instances-Finishes :
      (max_age : ℕ) → Finishes (Unhindered since) (prune_expired_instances env max_age)
  unfolding prune_expired_instances
  prune_expired_instances-Finishes max_age =
      search (finishes_rules, read_instances-Finishes, prune_expired_read-Finishes)

  list_entry-Finishes : (o : Option InstanceId) → Finishes (Unhindered since) (list_entry env o)
  unfolding list_entry
  list_entry-Finishes none = search finishes_rules
  list_entry-Finishes (some id) = search (finishes_rules, metadata-Finishes) depth 9

  list_entries-Finishes :
      (es : List (Option DirEntry)) → Finishes (Unhindered since) (list_entries env es)
  unfolding list_entries
  list_entries-Finishes [] = search finishes_rules
  list_entries-Finishes (none ∷ es) = entry_error-Finishes env since
  list_entries-Finishes (some e ∷ es) =
      Finishes-bind _ _ (list_entry-Finishes (entry_id e))
        λ here. Finishes-bind _ _ (list_entries-Finishes es) λ rest. Finishes-pure _

  list_read-Finishes : (r : ReadDir) → Finishes (Unhindered since) (list_read env r)
  unfolding list_read
  list_read-Finishes not_found = search finishes_rules
  list_read-Finishes refused = entry_error-Finishes env since
  list_read-Finishes (entries es) = search (finishes_rules, list_entries-Finishes)

  pub list_instances-Finishes : Finishes (Unhindered since) (list_instances env)
  unfolding list_instances
  list_instances-Finishes = search (finishes_rules, read_instances-Finishes, list_read-Finishes)
