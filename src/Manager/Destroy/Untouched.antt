-- ===== src/Manager/Destroy/Untouched.antt =====
-- cuttlefish/cfctl/src/daemon/manager.rs: stopping, destroying and deploying, for other instances.
use fundroid.Prelude.{ℕ, ◌≢◌, Bool, true, false, Option, none, some}
use fundroid.Exec.{Result, ok, err, stuck}
use fundroid.Exec.Keeps.{Keeps, keeps_rules}
use fundroid.Text.{Text}
use fundroid.Protocol.{Message, InstanceSummary, DestroyOptions, DeployRequest}
use fundroid.Files.{Slot, InstanceMetadata}
use fundroid.Host.{Env, World, Action}
use fundroid.Host.Untouched.{
  Untouched, epoch_secs-Untouched, instant_now-Untouched, spawn-Untouched, exists-Untouched,
  write-Untouched, remove_file-Untouched, remove_root-Untouched,
}
use fundroid.Manager.Metadata.Untouched.{metadata_rules, by_new_manager-Untouched}
use fundroid.Manager.Cleanup.{CleanupOutcome}
use fundroid.Manager.Cleanup.Untouched.{
  kill_guest_processes-Untouched, cleanup_host_state-Untouched,
}
use fundroid.Manager.Terminate.Untouched.{terminate_guest-Untouched}
use fundroid.Manager.Metadata.{by_new_manager}
use fundroid.Manager.Destroy.{
  stopped_or_failed, stop_instance, prepare_destroy, remove_present, remove_instance_artifacts,
  forget, settle, finish_destroy, destroy_answer, destroy_received, destroy_wait, destroy_until,
  destroy_instance, copy_image, deploy,
}

module _ (env : Env) (i j : ℕ) (other : i ≢ j) (w : World) where
  stopped_or_failed-Untouched :
      (m : InstanceMetadata) (o : CleanupOutcome)
      → Keeps (Untouched i w) (stopped_or_failed env j m o)
  unfolding stopped_or_failed
  stopped_or_failed-Untouched m o =
      search (keeps_rules, metadata_rules, epoch_secs-Untouched) depth 12

  pub stop_instance-Untouched : Keeps (Untouched i w) (stop_instance env j)
  unfolding stop_instance
  stop_instance-Untouched =
      search
        (
          keeps_rules, metadata_rules, epoch_secs-Untouched, terminate_guest-Untouched,
          cleanup_host_state-Untouched, stopped_or_failed-Untouched,
        )
        depth 16

  pub prepare_destroy-Untouched : Keeps (Untouched i w) (prepare_destroy env j)
  unfolding prepare_destroy
  prepare_destroy-Untouched =
      search
        (
          keeps_rules, metadata_rules, epoch_secs-Untouched, exists-Untouched,
          terminate_guest-Untouched, kill_guest_processes-Untouched,
        )
        depth 16

  remove_present-Untouched :
      (b : Bool) (m : Action (Unit {0}))
      → Keeps (Untouched i w) m
      → Keeps (Untouched i w) (remove_present env j b m)
  unfolding remove_present
  remove_present-Untouched b m k = search keeps_rules

  pub remove_instance_artifacts-Untouched : Keeps (Untouched i w) (remove_instance_artifacts env j)
  unfolding remove_instance_artifacts
  remove_instance_artifacts-Untouched =
      search
        (
          keeps_rules, exists-Untouched, remove_present-Untouched, remove_file-Untouched,
          remove_root-Untouched,
        )
        depth 12

  forget-Untouched : (r : Result Message (Unit {0})) → Keeps (Untouched i w) (forget j r)
  unfolding forget
  forget-Untouched (ok x) = search (keeps_rules, metadata_rules) depth 9
  forget-Untouched (err e) = search (keeps_rules, metadata_rules) depth 9
  forget-Untouched stuck = search (keeps_rules, metadata_rules) depth 9

  settle-Untouched : (b : Bool) → Keeps (Untouched i w) (settle env j b)
  unfolding settle
  settle-Untouched true =
      search (keeps_rules, remove_instance_artifacts-Untouched, forget-Untouched) depth 9
  settle-Untouched false = search (keeps_rules, metadata_rules) depth 9

  pub finish_destroy-Untouched : Keeps (Untouched i w) (finish_destroy env j)
  unfolding finish_destroy
  finish_destroy-Untouched =
      search (keeps_rules, cleanup_host_state-Untouched, settle-Untouched) depth 9

module _ (env : Env) (i j : ℕ) (other : i ≢ j) (w : World) where
  pub finish_by_new_manager-Untouched :
      Keeps (Untouched i w) (by_new_manager (finish_destroy env j))
  finish_by_new_manager-Untouched =
      by_new_manager-Untouched i w (finish_destroy env j) (finish_destroy-Untouched env i j other)

  destroy_answer-Untouched :
      (s : InstanceSummary) (o : CleanupOutcome) → Keeps (Untouched i w) (destroy_answer j s o)
  unfolding destroy_answer
  destroy_answer-Untouched s o = search (keeps_rules) depth 9

  destroy_received-Untouched :
      (s : InstanceSummary) → Keeps (Untouched i w) (destroy_received env j s)
  unfolding destroy_received
  destroy_received-Untouched s =
      search (keeps_rules, finish_by_new_manager-Untouched, destroy_answer-Untouched) depth 9

  destroy_wait-Untouched :
      (s : InstanceSummary) (b : Bool) → Keeps (Untouched i w) (destroy_wait env j s b)
  unfolding destroy_wait
  destroy_wait-Untouched s true = search (keeps_rules, destroy_received-Untouched) depth 9
  destroy_wait-Untouched s false = search (keeps_rules, spawn-Untouched) depth 9

  destroy_until-Untouched :
      (s : InstanceSummary) (t : Option ℕ) → Keeps (Untouched i w) (destroy_until env j s t)
  unfolding destroy_until
  destroy_until-Untouched s none = search (keeps_rules, destroy_received-Untouched) depth 12
  destroy_until-Untouched s (some t) =
      search (keeps_rules, destroy_wait-Untouched, instant_now-Untouched) depth 12

  pub destroy_instance-Untouched :
      (options : DestroyOptions) → Keeps (Untouched i w) (destroy_instance env j options)
  unfolding destroy_instance
  destroy_instance-Untouched options =
      search (keeps_rules, prepare_destroy-Untouched, destroy_until-Untouched) depth 9

  copy_image-Untouched :
      (s : Slot) (source : Option Text) (m : InstanceMetadata)
      (moved : InstanceMetadata → InstanceMetadata)
      → Keeps (Untouched i w) (copy_image env j s source m moved)
  unfolding copy_image
  copy_image-Untouched s none m moved = search keeps_rules
  copy_image-Untouched s (some t) m moved = search (keeps_rules, write-Untouched) depth 9

pub deploy-Untouched :
    (env : Env) (i : ℕ) (w : World) (req : DeployRequest)
    → i ≢ req.id
    → Keeps (Untouched i w) (deploy env req)
unfolding deploy
deploy-Untouched env i w req other =
    search (keeps_rules, metadata_rules, epoch_secs-Untouched, copy_image-Untouched) depth 20
