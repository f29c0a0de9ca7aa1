-- ===== src/Manager/Destroy/Stopped.antt =====
-- cuttlefish/cfctl/src/daemon/manager.rs: what a stop that succeeds leaves behind.
use fundroid.Prelude.{ℕ, ◌≡◌, refl, ◌⊎◌, inr, false, Option, none, arith, subst, ◌∙◌}
use fundroid.Exec.{ok, ◌>>◌}
use fundroid.Exec.Keeps.{Keeps}
use fundroid.Exec.Leaves.{
  Leaves, Leaves-bind, Leaves-then, Leaves-pure, Leaves-if_known, Leaves-fact,
}
use fundroid.Protocol.{Message, InstanceId, stopped, failed, InstanceActionResponse}
use fundroid.Files.{InstanceMetadata}
use fundroid.Host.{Env, World, ExitStatusInfo}
use fundroid.Host.Os.{epoch_secs}
use fundroid.Manager.Metadata.{summary, metadata, write_metadata, cache_insert}
use fundroid.Manager.Metadata.Recorded.{
  OnDisk, Recorded, write_metadata-Leaves, write_metadata-registry,
}
use fundroid.Manager.Cleanup.{CleanupOutcome, cleanup_host_state}
use fundroid.Manager.Cleanup.Settled.{cleanup_host_state-Recorded, cleanup_host_state-Registered}
use fundroid.Manager.Terminate.{terminate_guest}
use fundroid.Manager.Terminate.Gone.{terminate_guest-unregisters}
use fundroid.Manager.Destroy.{stop_state, action_response, stopped_or_failed, stop_instance}

abbrev Unregistered : InstanceId → World → Type 0
Unregistered id v = v.registry id ≡ none

-- The metadata are recorded, and no handle is registered.
abbrev Settled : InstanceId → InstanceMetadata → World → Type 0
Settled id m v = Recorded id m v × Unregistered id v

module _ (env : Env) (id : InstanceId) where
  write_metadata-Settled :
      (m : InstanceMetadata)
      → Leaves
          (Unregistered id)
          (λ a v. OnDisk id m v × Unregistered id v)
          (write_metadata env id m)
  write_metadata-Settled m = record {
    after = λ w p a h.
        ((write_metadata-Leaves env id m).after w tt a h, write_metadata-registry env id m w ∙ p);
  }

  cache_insert-Settled :
      (m : InstanceMetadata)
      → Leaves {E = Message}
          (λ v. OnDisk id m v × Unregistered id v)
          (λ a. Settled id m)
          (cache_insert id m)
  cache_insert-Settled m = record { after = λ w p a h. ((ground arith, p.0), p.1) }

  cleanup_host_state-Settled :
      (m : InstanceMetadata) → Keeps (Settled id m) (cleanup_host_state env id)
  cleanup_host_state-Settled m = record {
    run = λ w p. (
      (cleanup_host_state-Recorded env id m).run w p.0,
      (cleanup_host_state-Registered env id none).run w p.1,
    );
  }

  epoch_secs-Unregistered : Keeps (Unregistered id) (epoch_secs env)
  unfolding epoch_secs
  epoch_secs-Unregistered = record { run = λ w p. p }

  recorded-Settled :
      (m : InstanceMetadata)
      → Leaves {E = Message}
          (Unregistered id)
          (λ a. Settled id m)
          (do write_metadata env id m; cache_insert id m)
  recorded-Settled m = Leaves-bind _ _ (write_metadata-Settled m) λ a. cache_insert-Settled m

-- The metadata with another state, and with the time of the change.
abbrev Restated : InstanceMetadata → InstanceMetadata → Type 0
Restated old m = m ≡ record old { state = m.state; updated_at = m.updated_at }

abbrev Final : InstanceId → InstanceMetadata → CleanupOutcome → InstanceMetadata → World → Type 0
Final id old outcome m v =
    Settled id m v
    × Restated old m
    × ((m.state ≡ stopped) ⊎ (m.state ≡ failed))
    × (outcome.guest_processes_killed ≡ false → m.state ≡ failed)

stop_state-cases :
    (exit : Option ExitStatusInfo) → (stop_state exit ≡ stopped) ⊎ (stop_state exit ≡ failed)
unfolding stop_state
stop_state-cases exit = ground arith

module _ (env : Env) (id : InstanceId) (old : InstanceMetadata) where
  stopped_or_failed-Final :
      (exit : Option ExitStatusInfo) (now : ℕ) (outcome : CleanupOutcome)
      → Leaves
          (Settled id (record old { state = stop_state exit; updated_at = now }))
          (Final id old outcome)
          (stopped_or_failed env id
            (record old { state = stop_state exit; updated_at = now })
            outcome)
  unfolding stopped_or_failed
  stopped_or_failed-Final exit now outcome =
      Leaves-if_known outcome.guest_processes_killed _ _
        (λ killed. Leaves-pure _ λ w p. (p, refl, stop_state-cases exit, λ left. cc))
        (λ left.
          Leaves-bind {R = λ a. Unregistered id} _ _
            (record { after = λ w p a h. (epoch_secs-Unregistered env id).run w p.1 })
            λ later. Leaves-bind _ _ (write_metadata-Settled env id _) λ a.
              Leaves-bind _ _ (cache_insert-Settled env id _)
                λ b. Leaves-pure _ λ w p. (p, refl, inr refl, λ e. refl))

module _ (env : Env) (id : InstanceId) (w : World) where
  -- What is recorded when a stop succeeds, and what it answers.
  abbrev pub Stopped : InstanceActionResponse → World → Type 0
  Stopped r v =
      (old : InstanceMetadata) × (m : InstanceMetadata) × (outcome : CleanupOutcome) × ((metadata
          env id w).0
        ≡ ok old)
      × Final id old outcome m v
      × (r ≡ action_response (summary env m) outcome)

  terminated : Leaves (λ v. Unit {0}) (λ exit. Unregistered id) (terminate_guest env id 10000)
  terminated = record { after = λ v p exit h. terminate_guest-unregisters env id 10000 v exit h }

  stop_instance-Stopped : Leaves (λ s. s ≡ w) Stopped (stop_instance env id)
  unfolding stop_instance
  stop_instance-Stopped =
      Leaves-bind {R = λ old v. (metadata env id w).0 ≡ ok old} _ _
        (record { after = λ s p old h. subst (λ x. (metadata env id x).0 ≡ ok old) p h })
        λ old. Leaves-fact _ λ known. Leaves-bind _ _ terminated λ exit.
          Leaves-then _ _ (epoch_secs-Unregistered env id) λ now.
            Leaves-bind _ _ (write_metadata-Settled env id _) λ a.
              Leaves-bind _ _ (cache_insert-Settled env id _) λ b.
                Leaves-then _ _ (cleanup_host_state-Settled env id _) λ outcome.
                  Leaves-bind _ _ (stopped_or_failed-Final env id old exit now outcome)
                    λ m. Leaves-pure _ λ v p. (old, m, outcome, known, p, refl)

  -- Where a stop succeeds, no handle is registered for the instance any more; the file and the cache
  -- have the old metadata with the state stopped or failed, and failed if the cleanup has left
  -- processes; the response has the summary of these metadata and of the cleanup.
  pub stop_instance-records :
      (r : InstanceActionResponse)
      → (stop_instance env id w).0 ≡ ok r
      → Stopped r (stop_instance env id w).1
  stop_instance-records r h = stop_instance-Stopped.after w refl r h
