-- ===== src/Manager/Alloc/Spared.antt =====
-- cuttlefish/cfctl/src/daemon/manager.rs: `create_instance` and the instances that are there.
use fundroid.Prelude.{ℕ, zero, suc, ◌≢◌, inl, inr, Option, none, some}
use fundroid.Exec.{◌>>=◌}
use fundroid.Exec.Keeps.{Keeps, Keeps-after, Keeps-bind, Keeps-if, keeps_rules}
use fundroid.Text.{Text}
use fundroid.Protocol.{InstanceId}
use fundroid.Files.{Disk}
use fundroid.Host.{Env, World}
use fundroid.Host.Untouched.{
  Untouched, Untouched-refl, attempt_call-Untouched, exists-Untouched, write-Untouched,
  create_dir_all-Untouched, epoch_secs-Untouched,
}
use fundroid.Manager.Metadata.Untouched.{metadata_rules}
use fundroid.Manager.Alloc.{
  occupied, wrapped, successor, select_id, selected_or_fail, open_id_file, store_next, allocate_id,
  fill_instance, create_instance,
}
use fundroid.Manager.Alloc.Search.{Free, Taken}
use fundroid.Manager.Alloc.Fresh.{allocate_id-fresh}

module _ (env : Env) (i : ℕ) (w : World) where
  open_id_file-Untouched : Keeps (Untouched i w) (open_id_file env)
  unfolding open_id_file
  open_id_file-Untouched = search (keeps_rules, attempt_call-Untouched) depth 12

  occupied-Untouched : (c : ℕ) → Keeps (Untouched i w) (occupied env c)
  unfolding occupied
  occupied-Untouched c = search (keeps_rules, exists-Untouched) depth 9

  select_id-Untouched : (rounds c : ℕ) → Keeps (Untouched i w) (select_id env rounds c)
  unfolding select_id
  select_id-Untouched zero c = search keeps_rules
  select_id-Untouched (suc rounds) c = Keeps-bind _ _ (occupied-Untouched (wrapped c)) λ taken.
      Keeps-if taken _ _ (select_id-Untouched rounds (successor (wrapped c))) (search keeps_rules)

  selected_or_fail-Untouched : (o : Option InstanceId) → Keeps (Untouched i w) (selected_or_fail o)
  selected_or_fail-Untouched none = search keeps_rules
  selected_or_fail-Untouched (some id) = search keeps_rules

module _ (env : Env) (i : ℕ) (other : i ≢ 0) (w : World) where
  store_next-Untouched : (c : ℕ) → Keeps (Untouched i w) (store_next env c)
  unfolding store_next
  store_next-Untouched c = search (keeps_rules, write-Untouched, attempt_call-Untouched) depth 12

  allocate_id-Untouched : Keeps (Untouched i w) (allocate_id env)
  unfolding allocate_id
  allocate_id-Untouched =
      search
        (
          keeps_rules, open_id_file-Untouched, select_id-Untouched, selected_or_fail-Untouched,
          store_next-Untouched,
        )
        depth 12

-- An instance that is there is not the one that is allocated.
Taken-other : (d : Disk) (i id : ℕ) → Taken d i → Free d id → i ≢ id
Taken-other d i id (inl known) (low, high, unknown, missing) e = cc
Taken-other d i id (inr there) (low, high, unknown, missing) e = cc

fill_instance-Untouched :
    (env : Env) (i j : ℕ) (other : i ≢ j) (w : World) (purpose : Option Text)
    → Keeps (Untouched i w) (fill_instance env purpose j)
unfolding fill_instance
fill_instance-Untouched env i j other w purpose =
    search (keeps_rules, metadata_rules, create_dir_all-Untouched, epoch_secs-Untouched) depth 16

-- Creating an instance leaves the files, the cached metadata and the registry entry of every
-- instance alone that has a metadata file or a directory already, whatever calls fail. Ids are from
-- 1 on.
pub create_instance-spares :
    (env : Env) (w : World) (purpose : Option Text) (i : InstanceId)
    → i ≢ 0
    → Taken w.disk i
    → Untouched i w (create_instance env purpose w).1
unfolding create_instance ◌>>=◌
create_instance-spares env w purpose i positive taken =
    Keeps-after (allocate_id env w).0 _ (allocate_id env w).1
      ((allocate_id-Untouched env i positive w).run w (Untouched-refl i w))
      λ id given.
        fill_instance-Untouched env i id
          (Taken-other w.disk i id taken (allocate_id-fresh env w id given).0) w purpose
