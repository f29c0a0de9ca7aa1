-- ===== src/Manager/Start/Finishes.antt =====
-- cuttlefish/cfctl/src/daemon/manager.rs: the end of starting an instance.
use fundroid.Prelude.{ℕ, ◌≢◌, refl, arith, Bool, true, false, Option, none, some}
use fundroid.Exec.{Result, ok, err, stuck, modify}
use fundroid.Exec.Finishes.{
  Finishes, Finishes-fail, Finishes-gets, finishes_rules, Ends, Ends-bind, Ends-if, Ends-modify,
  Ends-then, Finishes-Ends, Finishes-map_err,
}
use fundroid.Text.{Text}
use fundroid.Protocol.{Message, ErrorDetail, InstanceActionResponse, StartOptions}
use fundroid.Files.{InstanceMetadata}
use fundroid.Host.{Env}
use fundroid.Host.Unhindered.{Unhindered, epoch_secs-Finishes, instant_now-Finishes}
use fundroid.Guest.{new_handle, insert}
use fundroid.Manager.Alloc.Finishes.{create_instance-Finishes}
use fundroid.Manager.Metadata.Finishes.{metadata_finishes}
use fundroid.Manager.Cleanup.Finishes.{preflight_cleanup-Finishes}
use fundroid.Manager.Launch.Finishes.{
  prepare_host_directories-Finishes, ensure_qemu_datadir-Finishes, prepare_run_log-Finishes,
  spawn_guest_process-Finishes,
}
use fundroid.Manager.Terminate.Finishes.{terminate_guest-Finishes}
use fundroid.Manager.Adb.Finishes.{wait_for_adb-Finishes, verify_boot_completed-Finishes}
use fundroid.Manager.Start.{
  secs_remaining, register, spawn_failed, spawned, launch, start_without_adb, adb_or_terminate,
  verify_if_asked, start_with_adb, start_instance, create_and_start_instance,
}

module _ (env : Env) (since : ℕ) where
  secs_remaining-Finishes : (d : Option ℕ) → Finishes (Unhindered since) (secs_remaining env d)
  unfolding secs_remaining
  secs_remaining-Finishes none = search (finishes_rules) depth 9
  secs_remaining-Finishes (some d) = search (finishes_rules, instant_now-Finishes) depth 9

  verify_if_asked-Finishes :
      (j : ℕ) (d : Option ℕ) (b : Bool) (r : InstanceActionResponse)
      → Finishes (Unhindered since) (verify_if_asked env j d b r)
  unfolding verify_if_asked
  verify_if_asked-Finishes j d false r = search (finishes_rules) depth 9
  verify_if_asked-Finishes j d true r =
      search (finishes_rules, secs_remaining-Finishes, verify_boot_completed-Finishes) depth 9

  register-Finishes :
      {E : Type 0} (j pid : ℕ) → Finishes (Unhindered since) (modify {E = E} (register j pid))
  unfolding register insert new_handle
  register-Finishes j pid = record {
    run = λ v u.
        ((λ h. cc), record { unlocked = λ h. ground (arith, u.unlocked h); later = u.later });
  }

  spawn_failed-Finishes :
      (j : ℕ) (m : InstanceMetadata) (e : Message)
      → Finishes (Unhindered since) (spawn_failed env j m e)
  unfolding spawn_failed
  spawn_failed-Finishes j m e =
      search (finishes_rules, metadata_finishes, epoch_secs-Finishes) depth 12

  spawned-Finishes :
      (j : ℕ) (m : InstanceMetadata) (r : Result Message ℕ)
      → r ≢ stuck
      → Finishes (Unhindered since) (spawned env j m r)
  unfolding spawned
  spawned-Finishes j m (ok pid) ends = search (finishes_rules, register-Finishes) depth 9
  spawned-Finishes j m (err e) ends = search (finishes_rules, spawn_failed-Finishes) depth 9
  spawned-Finishes j m stuck ends = absurd (ends refl)

  launch-Finishes :
      (j : ℕ) (options : StartOptions) → Finishes (Unhindered since) (launch env j options)
  unfolding launch
  launch-Finishes j options =
      search
        (
          finishes_rules, metadata_finishes, epoch_secs-Finishes, preflight_cleanup-Finishes,
          prepare_host_directories-Finishes, ensure_qemu_datadir-Finishes, prepare_run_log-Finishes,
          spawn_guest_process-Finishes, spawned-Finishes,
        )
        depth 24

  adb_or_terminate-Finishes :
      (j : ℕ) (r : Result ErrorDetail InstanceActionResponse)
      → r ≢ stuck
      → Finishes (Unhindered since) (adb_or_terminate env j r)
  unfolding adb_or_terminate
  adb_or_terminate-Finishes j (ok r) ends = search (finishes_rules) depth 9
  adb_or_terminate-Finishes j (err e) ends =
      search (finishes_rules, terminate_guest-Finishes) depth 9
  adb_or_terminate-Finishes j stuck ends = absurd (ends refl)

  start_without_adb-Ends : (j h : ℕ) → Ends (Unhindered since) (start_without_adb env j h)
  unfolding start_without_adb
  start_without_adb-Ends j h = Ends-bind _ _ (search (finishes_rules, metadata_finishes)) λ old.
      Ends-bind _ _ (search (finishes_rules, epoch_secs-Finishes)) λ now.
        Ends-bind _ _ (search (finishes_rules, metadata_finishes))
          λ a. Ends-bind _ _ (search metadata_finishes) λ b. Ends-modify _ _

  start_with_adb-Ends :
      (j : ℕ) (options : StartOptions) (h : ℕ)
      → Ends (Unhindered since) (start_with_adb env j options h)
  unfolding start_with_adb
  start_with_adb-Ends j options h = Ends-bind _ _ (instant_now-Finishes env since) λ now.
      Ends-bind _ _ (secs_remaining-Finishes _) λ left.
        Ends-then _ _ (wait_for_adb-Finishes env since j left) λ reached ends.
          Ends-bind _ _ (adb_or_terminate-Finishes j reached ends) λ response.
            Ends-bind _ _ (verify_if_asked-Finishes j _ _ response) λ done. Ends-modify _ _

  pub start_instance-Ends :
      (j : ℕ) (options : StartOptions) → Ends (Unhindered since) (start_instance env j options)
  unfolding start_instance
  start_instance-Ends j options = Ends-if _ _ _ (Finishes-Ends _ (Finishes-fail _)) (
      Ends-bind _ _ (Finishes-gets _) λ active.
        Ends-if active _ _ (Finishes-Ends _ (Finishes-fail _)) (
          Ends-bind _ _ (launch-Finishes j options)
            λ h. Ends-if _ _ _ (start_without_adb-Ends j h) (start_with_adb-Ends j options h)))

  pub create_and_start_instance-Ends :
      (purpose : Option Text) (options : StartOptions)
      → Ends (Unhindered since) (create_and_start_instance env purpose options)
  unfolding create_and_start_instance
  create_and_start_instance-Ends purpose options =
      Ends-bind _ _ (Finishes-map_err _ _ (create_instance-Finishes env since purpose))
        λ create. start_instance-Ends _ options
