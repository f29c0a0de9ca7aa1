-- ===== src/Manager/Cleanup/Settled.antt =====
-- cuttlefish/cfctl/src/daemon/manager.rs: what a cleanup of an instance leaves alone of the instance
-- itself: its metadata, in the file and in the cache, and its handle.
use fundroid.Prelude.{ℕ, not, ◌≡◌, List, [], ◌∷◌, Option, arith, ◌∙◌}
use fundroid.Exec.{Exec, pure}
use fundroid.Exec.Keeps.{Keeps, Keeps-bind, Keeps-if, Keeps-attempt, Keeps-pure, keeps_rules}
use fundroid.Text.{Text}
use fundroid.Text.Numbers.{Pid}
use fundroid.Protocol.{Message, InstanceId}
use fundroid.Files.{Slot, InstanceMetadata, instance_dir, assembly_dir, metadata_file}
use fundroid.Host.{Env, World, Task, Action, purge_trash}
use fundroid.Host.Fs
use fundroid.Host.Os.{epoch_secs, spawn}
use fundroid.Host.Untouched.{
  Untouched, Untouched-refl, exists-Untouched, epoch_secs-Untouched, spawn-Untouched,
}
use fundroid.Manager.Metadata.Recorded.{Recorded}
use fundroid.Manager.Cleanup.{
  ignoring, rename_to_trash, trash_then_purge_async, trash_dirs, cleanup_host_state,
  kill_guest_processes, remove_network_devices, remove_ephemeral_dirs,
  remove_cuttlefish_config_symlink, kill_open_file_holders, collect_guest_pids,
  reset_cuttlefish_permissions_async,
}
use fundroid.Manager.Cleanup.Untouched.{
  kill_guest_processes-Untouched, remove_network_devices-Untouched, remove_ephemeral_dirs-Untouched,
  remove_cuttlefish_config_symlink-Untouched, kill_open_file_holders-Untouched,
  collect_guest_pids-Untouched, reset_cuttlefish_permissions_async-Untouched,
}

-- A predicate of the files, the cached metadata and the handle of one instance.
abbrev pub Respects : InstanceId → (World → Type 0) → Type 0
Respects i P = (w v : World) → Untouched i w v → P w → P v

pub Untouched-Keeps :
    (i : InstanceId) (P : World → Type 0) {E A : Type 0} (m : Exec World E A)
    → Respects i P
    → ((w : World) → Keeps (Untouched i w) m)
    → Keeps P m
Untouched-Keeps i P m respects k = record {
  run = λ w p. respects w _ ((k w).run w (Untouched-refl i w)) p;
}

module _ (env : Env) (i : InstanceId) (P : World → Type 0) (respects : Respects i P)
    (instance_trashed : Keeps P (rename_to_trash env instance_dir i))
    (assembly_trashed : Keeps P (rename_to_trash env assembly_dir i)) where
  exists-Keeps : {E : Type 0} (s : Slot) → Keeps P (Fs.exists {E = E} env s i)
  exists-Keeps s = Untouched-Keeps i P _ respects λ w. exists-Untouched env i w s i

  epoch_secs-Keeps : Keeps P (epoch_secs env)
  epoch_secs-Keeps = Untouched-Keeps i P _ respects λ w. epoch_secs-Untouched env i w

  spawn-Keeps : {E : Type 0} (t : Task) → Keeps P (spawn {E = E} t)
  spawn-Keeps t = Untouched-Keeps i P _ respects λ w. spawn-Untouched i w t

  trash_then_purge_async-Keeps :
      (s : Slot) → Keeps P (rename_to_trash env s i) → Keeps P (trash_then_purge_async env s i)
  unfolding trash_then_purge_async
  trash_then_purge_async-Keeps s renamed = Keeps-bind _ _ (exists-Keeps s) λ present.
      Keeps-if (not present) (pure {E = Message} tt) _ (Keeps-pure tt) (
        Keeps-bind _ _ (Keeps-attempt (epoch_secs env) epoch_secs-Keeps)
          λ now. Keeps-bind _ _ renamed λ u. spawn-Keeps (purge_trash s i))

  ignoring-Keeps : (m : Action (Unit {0})) → Keeps P m → Keeps P (ignoring m)
  ignoring-Keeps m k = Keeps-bind _ _ (Keeps-attempt {F = Message} m k) λ u. Keeps-pure tt

  trash_dirs-Keeps : (ps : List Pid) → Keeps P (trash_dirs env i ps)
  unfolding trash_dirs
  trash_dirs-Keeps [] =
      Keeps-bind _ _ (ignoring-Keeps _ (trash_then_purge_async-Keeps instance_dir instance_trashed))
        λ a.
          Keeps-bind _ _
            (ignoring-Keeps _ (trash_then_purge_async-Keeps assembly_dir assembly_trashed))
            λ b. Keeps-pure _
  trash_dirs-Keeps (p ∷ ps) = search keeps_rules

  -- The steps before the directories are trashed, and the one behind.
  kill-Keeps : Keeps P (kill_guest_processes env i)
  kill-Keeps = Untouched-Keeps i P _ respects λ w. kill_guest_processes-Untouched env i w i

  network-Keeps : Keeps P (remove_network_devices env i)
  network-Keeps = Untouched-Keeps i P _ respects λ w. remove_network_devices-Untouched env i w i

  ephemeral-Keeps : Keeps P (remove_ephemeral_dirs env i)
  ephemeral-Keeps = Untouched-Keeps i P _ respects λ w. remove_ephemeral_dirs-Untouched env i w i

  symlink-Keeps : Keeps P (remove_cuttlefish_config_symlink env)
  symlink-Keeps =
      Untouched-Keeps i P _ respects λ w. remove_cuttlefish_config_symlink-Untouched env i w

  holders-Keeps : (paths : List Text) → Keeps P (kill_open_file_holders env paths)
  holders-Keeps paths =
      Untouched-Keeps i P _ respects λ w. kill_open_file_holders-Untouched env i w paths

  pids-Keeps : Keeps P (collect_guest_pids env i)
  pids-Keeps = Untouched-Keeps i P _ respects λ w. collect_guest_pids-Untouched env i w i

  reset-Keeps : Keeps P reset_cuttlefish_permissions_async
  reset-Keeps = Untouched-Keeps i P _ respects λ w. reset_cuttlefish_permissions_async-Untouched i w

  pub cleanup_host_state-Keeps : Keeps P (cleanup_host_state env i)
  unfolding cleanup_host_state
  cleanup_host_state-Keeps =
      search
        (
          keeps_rules, kill-Keeps, network-Keeps, ephemeral-Keeps, symlink-Keeps, holders-Keeps,
          pids-Keeps, trash_dirs-Keeps, reset-Keeps,
        )
        depth 16

module _ (env : Env) (i : InstanceId) where
  -- The metadata stay as they are, in the file and in the cache.
  pub cleanup_host_state-Recorded :
      (m : InstanceMetadata) → Keeps (Recorded i m) (cleanup_host_state env i)
  unfolding rename_to_trash
  cleanup_host_state-Recorded m =
      cleanup_host_state-Keeps env i (Recorded i m)
        (λ w v u p. (u.cache_at ∙ p.0, u.disk_at metadata_file ∙ p.1))
        (record { run = λ w p. ground (arith, p.0, p.1) })
        (record { run = λ w p. ground (arith, p.0, p.1) })

  -- The registered handle too.
  pub cleanup_host_state-Registered :
      (h : Option ℕ) → Keeps (λ v. v.registry i ≡ h) (cleanup_host_state env i)
  unfolding rename_to_trash
  cleanup_host_state-Registered h =
      cleanup_host_state-Keeps env i (λ v. v.registry i ≡ h) (λ w v u p. u.registry_at ∙ p)
        (record { run = λ w p. ground (arith, p) }) (record { run = λ w p. ground (arith, p) })
