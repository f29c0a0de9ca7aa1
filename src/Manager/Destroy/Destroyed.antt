-- ===== src/Manager/Destroy/Destroyed.antt =====
-- cuttlefish/cfctl/src/daemon/manager.rs: a destroy that answers in time.
use fundroid.Prelude.{ℕ, ◌≡◌, refl, Bool, true, false, Option, none, some, subst}
use fundroid.Prelude.Table
use fundroid.Exec.{ok}
use fundroid.Exec.Leaves.{
  Leaves, Leaves-bind, Leaves-then, Leaves-pure, Leaves-if_known, Leaves-map_err, Leaves-fail,
}
use fundroid.Protocol.{InstanceId, InstanceSummary, InstanceActionResponse, DestroyOptions}
use fundroid.Host.{Env, World}
use fundroid.Host.Os.{instant_now, spawn}
use fundroid.Manager.Metadata.{by_new_manager}
use fundroid.Manager.Cleanup.{CleanupOutcome}
use fundroid.Manager.Destroy.{
  action_response, finish_destroy, destroy_answer, destroy_received, destroy_wait, destroy_until,
  destroy_instance,
}
use fundroid.Manager.Destroy.Removed.{
  Removed, gone, prepare_destroy-Removed, finish_destroy-Removed,
}

module _ (env : Env) (id : InstanceId) where
  -- What is left, and what the response says of it.
  abbrev pub Answered : InstanceSummary → InstanceActionResponse → World → Type 0
  Answered s r v =
      Removed id v
      × (o : CleanupOutcome) × (o.guest_processes_killed ≡ true)
      × (r ≡ action_response s o)

  by_new_manager-Removed :
      Leaves
        (Removed id)
        (λ o v. o.guest_processes_killed ≡ true → Removed id v)
        (by_new_manager (finish_destroy env id))
  unfolding by_new_manager
  by_new_manager-Removed = record {
    after =
        λ v p o h. (finish_destroy-Removed env id).after (record v { cache = Table.empty }) p o h;
  }

  destroy_received-Answered :
      (s : InstanceSummary) → Leaves (Removed id) (Answered s) (destroy_received env id s)
  unfolding destroy_received destroy_answer
  destroy_received-Answered s = Leaves-bind _ _ (Leaves-map_err _ _ by_new_manager-Removed) λ o.
      Leaves-if_known o.guest_processes_killed _ _
        (λ killed. Leaves-pure _ λ v p. (p killed, o, killed, refl)) (λ left. Leaves-fail _)

  destroy_wait-Answered :
      (s : InstanceSummary) (in_time : Bool)
      → Leaves (Removed id) (Answered s) (destroy_wait env id s in_time)
  unfolding destroy_wait spawn
  destroy_wait-Answered s true = destroy_received-Answered s
  destroy_wait-Answered s false = Leaves-then _ _ (record { run = λ v p. p }) λ u. Leaves-fail _

  destroy_until-Answered :
      (s : InstanceSummary) (timeout : Option ℕ)
      → Leaves (Removed id) (Answered s) (destroy_until env id s timeout)
  unfolding destroy_until instant_now
  destroy_until-Answered s none = destroy_received-Answered s
  destroy_until-Answered s (some timeout) =
      Leaves-then _ _ (record { run = λ v p. p })
        λ a.
          Leaves-then _ _ (record { run = λ v p. p })
            λ b.
              Leaves-then _ _ (record { run = λ v p. p }) λ in_time. destroy_wait-Answered s in_time

  destroy_instance-Leaves :
      (options : DestroyOptions)
      → Leaves (λ v. Unit {0}) (Answered (gone id)) (destroy_instance env id options)
  unfolding destroy_instance
  destroy_instance-Leaves options =
      Leaves-bind _ _ (Leaves-map_err _ _ (prepare_destroy-Removed env id)) λ s. record {
        after = λ v p r h.
            subst (λ x. Answered x r (destroy_until env id s options.timeout_secs v).1) p.1
              ((destroy_until-Answered s options.timeout_secs).after v p.0 r h);
      }

  -- Where a destroy succeeds, no handle is registered for the instance, and its metadata file is gone
  -- or says that it is destroyed; the response says so too, and that the processes of the guest were
  -- killed.
  pub destroy_instance-removes :
      (options : DestroyOptions) (w : World) (r : InstanceActionResponse)
      → (destroy_instance env id options w).0 ≡ ok r
      → Answered (gone id) r (destroy_instance env id options w).1
  destroy_instance-removes options w r h = (destroy_instance-Leaves options).after w tt r h
