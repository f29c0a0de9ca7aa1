-- ===== src/Manager/Adb/Finishes.antt =====
-- cuttlefish/cfctl/src/daemon/manager.rs: the end of the loops that poll adb.
use fundroid.Prelude.{
  ℕ, zero, suc, ◌+◌, ◌*◌, ◌≤◌, ◌<◌, ◌≡◌, ◌≢◌, refl, arith, String, false, Option, none, some,
}
use fundroid.Exec.{Exec, Result, ok, err, stuck, fail, modify}
use fundroid.Exec.Finishes.{
  Finishes, Finishes-bind, Finishes-bind-attempt, Finishes-map_err, Finishes-if, Finishes-pure,
  Finishes-fail, Finishes-gets, finishes_rules,
}
use fundroid.Text.{Text}
use fundroid.Protocol.{Message, ErrorDetail, InstanceActionResponse, BootVerificationResult}
use fundroid.Files.{InstanceMetadata}
use fundroid.Host.{Env, World, ExitStatusInfo, Command}
use fundroid.Host.Unhindered.{
  Unhindered, Finishes-retry, Finishes-now, epoch_secs-Finishes, run-Finishes,
}
use fundroid.Guest.{remove_if_handle}
use fundroid.Guest.Finishes.{try_wait-Finishes, remove_if_handle-Finishes}
use fundroid.Manager.Metadata.Finishes.{metadata-Finishes, metadata_finishes}
use fundroid.Manager.Logs.Finishes.{
  console_log_has_boot_marker-Finishes, run_log_has_boot_marker-Finishes,
}
use fundroid.Manager.Terminate.Finishes.{terminate_guest-Finishes, record_launch_failure-Finishes}
use fundroid.Manager.Adb.{
  Detailed, run_checked, adb_connect, adb_shell_getprop, resolve_active_adb_serial, launch_failed,
  adb_not_ready, adb_ready, adb_devices, adb_connected, adb_polled, adb_handle, adb_loop,
  wait_for_adb, boot_not_ready, logs_or_again, boot_property, boot_serial, boot_connected,
  boot_loop, verify_boot_completed,
}

-- What is known of the rounds after this one.
abbrev Again : {E A : Type 0} → ℕ → ℕ → ℕ → Exec World E A → Type 0
Again since deadline step again =
    (t : ℕ) → since + step ≤ t → since < deadline → Finishes (Unhindered t) again

module _ (env : Env) (since : ℕ) where
  run_checked-Finishes : (c : Command) → Finishes (Unhindered since) (run_checked env c)
  unfolding run_checked
  run_checked-Finishes c = search (finishes_rules, run-Finishes) depth 9

  pub adb_connect-Finishes : (s : Text) → Finishes (Unhindered since) (adb_connect env s)
  unfolding adb_connect
  adb_connect-Finishes s = search (finishes_rules, run_checked-Finishes) depth 9

  pub adb_shell_getprop-Finishes :
      (s : Text) (p : Text) → Finishes (Unhindered since) (adb_shell_getprop env s p)
  unfolding adb_shell_getprop
  adb_shell_getprop-Finishes s p = search (finishes_rules, run_checked-Finishes) depth 9

  pub resolve_active_adb_serial-Finishes :
      (a : Text) (b : Text) → Finishes (Unhindered since) (resolve_active_adb_serial env a b)
  unfolding resolve_active_adb_serial
  resolve_active_adb_serial-Finishes a b = search (finishes_rules, run_checked-Finishes) depth 9

  boot_not_ready-Finishes :
      (deadline pause : ℕ) (again : Detailed BootVerificationResult) (detail : ErrorDetail)
      → 500 ≤ pause
      → Again since deadline 500 again
      → Finishes (Unhindered since) (boot_not_ready env deadline pause again detail)
  unfolding boot_not_ready
  boot_not_ready-Finishes deadline pause again detail enough k =
      Finishes-retry env since deadline pause (fail detail) again
        (λ now later. Finishes-fail detail)
        λ now later early. k (now + pause) (omega arith) (omega arith)

  logs_or_again-Finishes :
      (j deadline pause : ℕ) (again : Detailed BootVerificationResult) (detail : ErrorDetail)
      → 500 ≤ pause
      → Again since deadline 500 again
      → Finishes (Unhindered since) (logs_or_again env j deadline pause again detail)
  unfolding logs_or_again
  logs_or_again-Finishes j deadline pause again detail enough k =
      search
        (
          finishes_rules, console_log_has_boot_marker-Finishes, run_log_has_boot_marker-Finishes,
          boot_not_ready-Finishes,
        )
        depth 12

  boot_property-Finishes :
      (j deadline : ℕ) (again : Detailed BootVerificationResult) (r : Result Message Text)
      → r ≢ stuck
      → Again since deadline 500 again
      → Finishes (Unhindered since) (boot_property env j deadline again r)
  unfolding boot_property
  boot_property-Finishes j deadline again (ok v) ends k =
      Finishes-if _ _ _ (Finishes-pure _)
        (logs_or_again-Finishes j deadline 1000 again _ (omega arith) k)
  boot_property-Finishes j deadline again (err e) ends k =
      logs_or_again-Finishes j deadline 500 again _ (omega arith) k
  boot_property-Finishes j deadline again stuck ends k = absurd (ends refl)

  boot_serial-Finishes :
      (j : ℕ) (m : InstanceMetadata) (deadline : ℕ) (again : Detailed BootVerificationResult)
      (r : Result Message (Option Text))
      → r ≢ stuck
      → Again since deadline 500 again
      → Finishes (Unhindered since) (boot_serial env j m deadline again r)
  unfolding boot_serial
  boot_serial-Finishes j m deadline again (ok none) ends k =
      boot_not_ready-Finishes deadline 500 again _ (omega arith) k
  boot_serial-Finishes j m deadline again (ok (some s)) ends k =
      Finishes-bind-attempt _ _ (adb_shell_getprop-Finishes s _)
        λ r ended. boot_property-Finishes j deadline again r ended k
  boot_serial-Finishes j m deadline again (err e) ends k =
      boot_not_ready-Finishes deadline 500 again _ (omega arith) k
  boot_serial-Finishes j m deadline again stuck ends k = absurd (ends refl)

  boot_connected-Finishes :
      (j : ℕ) (m : InstanceMetadata) (deadline : ℕ) (again : Detailed BootVerificationResult)
      (r : Result Message (Unit {0}))
      → r ≢ stuck
      → Again since deadline 500 again
      → Finishes (Unhindered since) (boot_connected env j m deadline again r)
  unfolding boot_connected
  boot_connected-Finishes j m deadline again (ok x) ends k =
      Finishes-bind-attempt _ _ (resolve_active_adb_serial-Finishes _ _)
        λ r ended. boot_serial-Finishes j m deadline again r ended k
  boot_connected-Finishes j m deadline again (err e) ends k =
      boot_not_ready-Finishes deadline 500 again _ (omega arith) k
  boot_connected-Finishes j m deadline again stuck ends k = absurd (ends refl)

module _ (env : Env) where
  boot_loop-Finishes :
      (fuel since j : ℕ) (m : InstanceMetadata) (deadline : ℕ)
      → deadline ≤ since + 500 * fuel
      → Finishes (Unhindered since) (boot_loop (suc fuel) env j m deadline)
  unfolding boot_loop
  boot_loop-Finishes zero since j m deadline enough =
      Finishes-bind-attempt _ _ (adb_connect-Finishes env since _) λ r ended.
        boot_connected-Finishes env since j m deadline _ r ended
          λ t later early. absurd (omega arith)
  boot_loop-Finishes (suc fuel) since j m deadline enough =
      Finishes-bind-attempt _ _ (adb_connect-Finishes env since _) λ r ended.
        boot_connected-Finishes env since j m deadline _ r ended
          λ t later early. boot_loop-Finishes fuel t j m deadline (omega arith)

  pub verify_boot_completed-Finishes :
      (since j : ℕ) (t : Option ℕ) → Finishes (Unhindered since) (verify_boot_completed env j t)
  unfolding verify_boot_completed
  verify_boot_completed-Finishes since j t =
      Finishes-bind _ _ (Finishes-map_err _ _ (metadata-Finishes env since j))
        λ m. Finishes-now env since _ λ now later. boot_loop-Finishes _ now j m _ (omega arith)

module _ (env : Env) (since j : ℕ) where
  launch_failed-Finishes :
      (m : InstanceMetadata) (code : String) (cause : Message)
      → Finishes (Unhindered since) (launch_failed env j m code cause)
  unfolding launch_failed
  launch_failed-Finishes m code cause =
      search (finishes_rules, record_launch_failure-Finishes) depth 9

module _ (env : Env) (since j : ℕ) where
  adb_not_ready-Finishes :
      (m : InstanceMetadata) (deadline : ℕ) (again : Detailed InstanceActionResponse)
      (cause : Message)
      → Again since deadline 1000 again
      → Finishes (Unhindered since) (adb_not_ready env j m deadline again cause)
  unfolding adb_not_ready
  adb_not_ready-Finishes m deadline again cause k =
      Finishes-retry env since deadline 1000 _ again
        (λ now later.
          search (finishes_rules, terminate_guest-Finishes, launch_failed-Finishes) depth 9)
        λ now later early. k (now + 1000) (omega arith) (omega arith)

  adb_ready-Finishes : (m : InstanceMetadata) → Finishes (Unhindered since) (adb_ready env j m)
  unfolding adb_ready
  adb_ready-Finishes m = search (finishes_rules, metadata_finishes, epoch_secs-Finishes) depth 12

  adb_devices-Finishes :
      (m : InstanceMetadata) (deadline : ℕ) (again : Detailed InstanceActionResponse)
      (r : Result Message (Option Text))
      → r ≢ stuck
      → Again since deadline 1000 again
      → Finishes (Unhindered since) (adb_devices env j m deadline again r)
  unfolding adb_devices
  adb_devices-Finishes m deadline again (ok none) ends k =
      search (finishes_rules, adb_not_ready-Finishes) depth 12
  adb_devices-Finishes m deadline again (ok (some s)) ends k =
      search (finishes_rules, adb_ready-Finishes) depth 12
  adb_devices-Finishes m deadline again (err e) ends k =
      search (finishes_rules, adb_not_ready-Finishes) depth 12
  adb_devices-Finishes m deadline again stuck ends k = absurd (ends refl)

  adb_connected-Finishes :
      (m : InstanceMetadata) (deadline : ℕ) (again : Detailed InstanceActionResponse)
      (r : Result Message (Unit {0}))
      → r ≢ stuck
      → Again since deadline 1000 again
      → Finishes (Unhindered since) (adb_connected env j m deadline again r)
  unfolding adb_connected
  adb_connected-Finishes m deadline again (ok x) ends k =
      search (finishes_rules, adb_devices-Finishes, resolve_active_adb_serial-Finishes) depth 12
  adb_connected-Finishes m deadline again (err e) ends k =
      search (finishes_rules, adb_not_ready-Finishes) depth 12
  adb_connected-Finishes m deadline again stuck ends k = absurd (ends refl)

  drop_handle-Finishes :
      {E : Type 0} (h : ℕ) → Finishes (Unhindered since) (modify {E = E} (remove_if_handle j h))
  drop_handle-Finishes h = record {
    run = λ v u. ((λ e. cc), remove_if_handle-Finishes since j h v u);
  }

  adb_polled-Finishes :
      (m : InstanceMetadata) (deadline : ℕ) (again : Detailed InstanceActionResponse) (h : ℕ)
      (e : Option ExitStatusInfo)
      → Again since deadline 1000 again
      → Finishes (Unhindered since) (adb_polled env j m deadline again h e)
  unfolding adb_polled
  adb_polled-Finishes m deadline again h none k =
      search (finishes_rules, adb_connect-Finishes, adb_connected-Finishes) depth 12
  adb_polled-Finishes m deadline again h (some e) k =
      search (finishes_rules, launch_failed-Finishes, drop_handle-Finishes) depth 12

  adb_handle-Finishes :
      (m : InstanceMetadata) (deadline : ℕ) (again : Detailed InstanceActionResponse) (h : Option ℕ)
      → Again since deadline 1000 again
      → Finishes (Unhindered since) (adb_handle env j m deadline again h)
  unfolding adb_handle
  adb_handle-Finishes m deadline again none k =
      search (finishes_rules, launch_failed-Finishes) depth 12
  adb_handle-Finishes m deadline again (some h) k =
      search (finishes_rules, adb_polled-Finishes, try_wait-Finishes) depth 12

module _ (env : Env) where
  adb_loop-Finishes :
      (fuel since j : ℕ) (m : InstanceMetadata) (deadline : ℕ)
      → deadline ≤ since + 1000 * fuel
      → Finishes (Unhindered since) (adb_loop (suc fuel) env j m deadline)
  unfolding adb_loop
  adb_loop-Finishes zero since j m deadline enough =
      Finishes-bind _ _ (Finishes-gets _)
        λ h. adb_handle-Finishes env since j m deadline _ h λ t later early. absurd (omega arith)
  adb_loop-Finishes (suc fuel) since j m deadline enough = Finishes-bind _ _ (Finishes-gets _) λ h.
      adb_handle-Finishes env since j m deadline _ h
        λ t later early. adb_loop-Finishes fuel t j m deadline (omega arith)

  pub wait_for_adb-Finishes :
      (since j : ℕ) (t : Option ℕ) → Finishes (Unhindered since) (wait_for_adb env j t)
  unfolding wait_for_adb
  wait_for_adb-Finishes since j t =
      Finishes-bind _ _ (Finishes-map_err _ _ (metadata-Finishes env since j))
        λ m. Finishes-now env since _ λ now later. adb_loop-Finishes _ now j m _ (omega arith)

  -- Waiting for adb ends, with a response or an error, where no exit watcher holds the lock of a
  -- guest: the rounds of the model are enough, for any timeout and whatever the host answers.
  pub wait_for_adb-ends :
      (j : ℕ) (t : Option ℕ) (w : World)
      → ((h : ℕ) → (w.handles h).locked ≡ false)
      → (wait_for_adb env j t w).0 ≢ stuck
  wait_for_adb-ends j t w unlocked =
      ((wait_for_adb-Finishes w.clock j t).run w
        (record { unlocked = unlocked; later = omega arith })).0

  -- Verifying the boot ends too.
  pub verify_boot_completed-ends :
      (j : ℕ) (t : Option ℕ) (w : World)
      → ((h : ℕ) → (w.handles h).locked ≡ false)
      → (verify_boot_completed env j t w).0 ≢ stuck
  verify_boot_completed-ends j t w unlocked =
      ((verify_boot_completed-Finishes env w.clock j t).run w
        (record { unlocked = unlocked; later = omega arith })).0
