-- ===== src/Manager/Alloc/Finishes.antt =====
-- cuttlefish/cfctl/src/daemon/manager.rs: the end of allocating, creating and holding.
use fundroid.Prelude.{ℕ, zero, suc, Option, none, some}
use fundroid.Exec.Finishes.{Finishes, Finishes-bind, Finishes-if, finishes_rules}
use fundroid.Text.{Text}
use fundroid.Protocol.{InstanceId}
use fundroid.Host.{Env}
use fundroid.Host.Unhindered.{
  Unhindered, attempt_call-Finishes, exists-Finishes, write-Finishes, create_dir_all-Finishes,
  epoch_secs-Finishes,
}
use fundroid.Manager.Metadata.Finishes.{metadata_finishes}
use fundroid.Manager.Alloc.{
  occupied, wrapped, successor, select_id, selected_or_fail, open_id_file, store_next, allocate_id,
  fill_instance, create_instance, hold_instance,
}

module _ (env : Env) (since : ℕ) where
  open_id_file-Finishes : Finishes (Unhindered since) (open_id_file env)
  unfolding open_id_file
  open_id_file-Finishes = search (finishes_rules, attempt_call-Finishes) depth 12

  occupied-Finishes : (c : ℕ) → Finishes (Unhindered since) (occupied env c)
  unfolding occupied
  occupied-Finishes c = search (finishes_rules, exists-Finishes) depth 9

  select_id-Finishes : (rounds c : ℕ) → Finishes (Unhindered since) (select_id env rounds c)
  unfolding select_id
  select_id-Finishes zero c = search finishes_rules
  select_id-Finishes (suc rounds) c = Finishes-bind _ _ (occupied-Finishes (wrapped c)) λ taken.
      Finishes-if taken _ _ (select_id-Finishes rounds (successor (wrapped c)))
        (search finishes_rules)

  selected_or_fail-Finishes :
      (o : Option InstanceId) → Finishes (Unhindered since) (selected_or_fail o)
  selected_or_fail-Finishes none = search finishes_rules
  selected_or_fail-Finishes (some id) = search finishes_rules

  store_next-Finishes : (c : ℕ) → Finishes (Unhindered since) (store_next env c)
  unfolding store_next
  store_next-Finishes c = search (finishes_rules, write-Finishes, attempt_call-Finishes) depth 12

  allocate_id-Finishes : Finishes (Unhindered since) (allocate_id env)
  unfolding allocate_id
  allocate_id-Finishes =
      search
        (
          finishes_rules, open_id_file-Finishes, select_id-Finishes, selected_or_fail-Finishes,
          store_next-Finishes,
        )
        depth 12

  fill_instance-Finishes :
      (purpose : Option Text) (j : ℕ) → Finishes (Unhindered since) (fill_instance env purpose j)
  unfolding fill_instance
  fill_instance-Finishes purpose j =
      search (finishes_rules, metadata_finishes, create_dir_all-Finishes, epoch_secs-Finishes) depth
        16

  pub create_instance-Finishes :
      (purpose : Option Text) → Finishes (Unhindered since) (create_instance env purpose)
  unfolding create_instance
  create_instance-Finishes purpose =
      search (finishes_rules, allocate_id-Finishes, fill_instance-Finishes)

  pub hold_instance-Finishes : (j : ℕ) → Finishes (Unhindered since) (hold_instance env j)
  unfolding hold_instance
  hold_instance-Finishes j =
      search (finishes_rules, metadata_finishes, epoch_secs-Finishes) depth 12
