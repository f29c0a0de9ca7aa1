-- ===== src/Manager/Destroy/Finishes.antt =====
-- cuttlefish/cfctl/src/daemon/manager.rs: the end of stopping, destroying and deploying.
use fundroid.Prelude.{ℕ, ◌≢◌, refl, Bool, true, false, Option, none, some}
use fundroid.Exec.{Result, ok, err, stuck}
use fundroid.Exec.Finishes.{Finishes, finishes_rules}
use fundroid.Text.{Text}
use fundroid.Protocol.{Message, InstanceSummary, DestroyOptions, DeployRequest}
use fundroid.Files.{Slot, InstanceMetadata}
use fundroid.Host.{Env, Action}
use fundroid.Host.Unhindered.{
  Unhindered, epoch_secs-Finishes, instant_now-Finishes, spawn-Finishes, exists-Finishes,
  write-Finishes, remove_file-Finishes, remove_root-Finishes,
}
use fundroid.Manager.Metadata.Finishes.{metadata_finishes, by_new_manager-Finishes}
use fundroid.Manager.Cleanup.{CleanupOutcome}
use fundroid.Manager.Cleanup.Finishes.{kill_guest_processes-Finishes, cleanup_host_state-Finishes}
use fundroid.Manager.Terminate.Finishes.{terminate_guest-Finishes}
use fundroid.Manager.Metadata.{by_new_manager}
use fundroid.Manager.Destroy.{
  stopped_or_failed, stop_instance, prepare_destroy, remove_present, remove_instance_artifacts,
  forget, settle, finish_destroy, destroy_answer, destroy_received, destroy_wait, destroy_until,
  destroy_instance, copy_image, deploy,
}

module _ (env : Env) (since j : ℕ) where
  stopped_or_failed-Finishes :
      (m : InstanceMetadata) (o : CleanupOutcome)
      → Finishes (Unhindered since) (stopped_or_failed env j m o)
  unfolding stopped_or_failed
  stopped_or_failed-Finishes m o =
      search (finishes_rules, metadata_finishes, epoch_secs-Finishes) depth 12

  pub stop_instance-Finishes : Finishes (Unhindered since) (stop_instance env j)
  unfolding stop_instance
  stop_instance-Finishes =
      search
        (
          finishes_rules, metadata_finishes, epoch_secs-Finishes, terminate_guest-Finishes,
          cleanup_host_state-Finishes, stopped_or_failed-Finishes,
        )
        depth 16

  pub prepare_destroy-Finishes : Finishes (Unhindered since) (prepare_destroy env j)
  unfolding prepare_destroy
  prepare_destroy-Finishes =
      search
        (
          finishes_rules, metadata_finishes, epoch_secs-Finishes, exists-Finishes,
          terminate_guest-Finishes, kill_guest_processes-Finishes,
        )
        depth 16

  remove_present-Finishes :
      (b : Bool) (m : Action (Unit {0}))
      → Finishes (Unhindered since) m
      → Finishes (Unhindered since) (remove_present env j b m)
  unfolding remove_present
  remove_present-Finishes b m k = search finishes_rules

  pub remove_instance_artifacts-Finishes :
      Finishes (Unhindered since) (remove_instance_artifacts env j)
  unfolding remove_instance_artifacts
  remove_instance_artifacts-Finishes =
      search
        (
          finishes_rules, exists-Finishes, remove_present-Finishes, remove_file-Finishes,
          remove_root-Finishes,
        )
        depth 12

  forget-Finishes :
      (r : Result Message (Unit {0})) → r ≢ stuck → Finishes (Unhindered since) (forget j r)
  unfolding forget
  forget-Finishes (ok x) ends = search (finishes_rules, metadata_finishes) depth 9
  forget-Finishes (err e) ends = search (finishes_rules, metadata_finishes) depth 9
  forget-Finishes stuck ends = absurd (ends refl)

  settle-Finishes : (b : Bool) → Finishes (Unhindered since) (settle env j b)
  unfolding settle
  settle-Finishes true =
      search (finishes_rules, remove_instance_artifacts-Finishes, forget-Finishes) depth 9
  settle-Finishes false = search (finishes_rules, metadata_finishes) depth 9

  pub finish_destroy-Finishes : Finishes (Unhindered since) (finish_destroy env j)
  unfolding finish_destroy
  finish_destroy-Finishes =
      search (finishes_rules, cleanup_host_state-Finishes, settle-Finishes) depth 9

module _ (env : Env) (since j : ℕ) where
  pub finish_by_new_manager-Finishes :
      Finishes (Unhindered since) (by_new_manager (finish_destroy env j))
  finish_by_new_manager-Finishes =
      by_new_manager-Finishes since (finish_destroy env j) (finish_destroy-Finishes env since j)

  destroy_answer-Finishes :
      (s : InstanceSummary) (o : CleanupOutcome)
      → Finishes (Unhindered since) (destroy_answer j s o)
  unfolding destroy_answer
  destroy_answer-Finishes s o = search (finishes_rules) depth 9

  destroy_received-Finishes :
      (s : InstanceSummary) → Finishes (Unhindered since) (destroy_received env j s)
  unfolding destroy_received
  destroy_received-Finishes s =
      search (finishes_rules, finish_by_new_manager-Finishes, destroy_answer-Finishes) depth 9

  destroy_wait-Finishes :
      (s : InstanceSummary) (b : Bool) → Finishes (Unhindered since) (destroy_wait env j s b)
  unfolding destroy_wait
  destroy_wait-Finishes s true = search (finishes_rules, destroy_received-Finishes) depth 9
  destroy_wait-Finishes s false = search (finishes_rules, spawn-Finishes) depth 9

  destroy_until-Finishes :
      (s : InstanceSummary) (t : Option ℕ) → Finishes (Unhindered since) (destroy_until env j s t)
  unfolding destroy_until
  destroy_until-Finishes s none = search (finishes_rules, destroy_received-Finishes) depth 12
  destroy_until-Finishes s (some t) =
      search (finishes_rules, destroy_wait-Finishes, instant_now-Finishes) depth 12

  pub destroy_instance-Finishes :
      (options : DestroyOptions) → Finishes (Unhindered since) (destroy_instance env j options)
  unfolding destroy_instance
  destroy_instance-Finishes options =
      search (finishes_rules, prepare_destroy-Finishes, destroy_until-Finishes) depth 9

  copy_image-Finishes :
      (s : Slot) (source : Option Text) (m : InstanceMetadata)
      (moved : InstanceMetadata → InstanceMetadata)
      → Finishes (Unhindered since) (copy_image env j s source m moved)
  unfolding copy_image
  copy_image-Finishes s none m moved = search finishes_rules
  copy_image-Finishes s (some t) m moved = search (finishes_rules, write-Finishes) depth 9

pub deploy-Finishes :
    (env : Env) (since : ℕ) (req : DeployRequest) → Finishes (Unhindered since) (deploy env req)
unfolding deploy
deploy-Finishes env since req =
    search (finishes_rules, metadata_finishes, epoch_secs-Finishes, copy_image-Finishes) depth 20
