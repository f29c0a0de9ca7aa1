-- ===== src/Manager/Alloc/Recorded.antt =====
-- cuttlefish/cfctl/src/daemon/manager.rs: what `create_instance` and `hold_instance` record.
use fundroid.Prelude.{◌≡◌, false, true, Option, refl, sym, subst}
use fundroid.Exec.{ok}
use fundroid.Exec.Leaves.{Leaves, Leaves-bind, Leaves-then, Leaves-pure}
use fundroid.Text.{Text}
use fundroid.Protocol.{InstanceId, created, CreateInstanceResponse, InstanceActionResponse}
use fundroid.Files.{InstanceMetadata}
use fundroid.Host.{Env, World}
use fundroid.Manager.Metadata.{summary}
use fundroid.Manager.Metadata.Recorded.{
  OnDisk, Recorded, write_metadata-Leaves, cache_insert-Leaves, write_env_file-OnDisk,
}
use fundroid.Manager.Alloc.{
  fill_instance, create_instance, hold_instance, new_metadata, plain_response,
}
use fundroid.Manager.Alloc.Search.{Free, Shows}
use fundroid.Manager.Alloc.Fresh.{allocate_id-Leaves}

abbrev pub Created : Env → Option Text → CreateInstanceResponse → World → Type 0
Created env purpose r v =
    (m : InstanceMetadata) × Recorded r.summary.id m v
    × (r.summary ≡ summary env m)
    × (m.id ≡ r.summary.id)
    × (m.state ≡ created)
    × (m.purpose ≡ purpose)
    × (m.held ≡ false)

module _ (env : Env) (purpose : Option Text) where
  fill_instance-Leaves :
      (id : InstanceId)
      → Leaves
          (λ v. Unit {0})
          (λ r v. Created env purpose r v × (r.summary.id ≡ id))
          (fill_instance env purpose id)
  unfolding fill_instance summary new_metadata
  fill_instance-Leaves id =
      Leaves-then _ _ (record { run = λ s p. tt })
        λ a.
          Leaves-then _ _ (record { run = λ s p. tt })
            λ a.
              Leaves-then _ _ (record { run = λ s p. tt })
                λ now.
                  Leaves-bind {R = λ a. OnDisk id (new_metadata env id purpose now)} _ _
                    (write_metadata-Leaves env id _)
                    λ a. Leaves-then _ _ (write_env_file-OnDisk env id _ _) λ a.
                      Leaves-bind _ _ (cache_insert-Leaves env id _)
                        λ a. Leaves-pure _ λ w r. ((_, r, refl, refl, refl, refl, refl), refl)

-- Where an instance is created, its id was free, and the file and the cache have the metadata that
-- the response sums up: a created instance with the purpose that was asked for, and not held.
pub create_instance-records :
    (env : Env) (w : World) (purpose : Option Text) (r : CreateInstanceResponse)
    → (create_instance env purpose w).0 ≡ ok r
    → Free w.disk r.summary.id × Created env purpose r (create_instance env purpose w).1
unfolding create_instance
create_instance-records env w purpose r h = made.after w (λ s i. refl) r h
  where
    made :
        Leaves
          (Shows w.disk)
          (λ r v. Free w.disk r.summary.id × Created env purpose r v)
          (create_instance env purpose)
    made = Leaves-bind _ _ (allocate_id-Leaves env w.disk) λ id. record {
      after = λ v (free, stored) r h.
          let (c, same) = (fill_instance-Leaves env purpose id).after v tt r h in
          (subst (Free w.disk) (sym same) free, c);
    }

-- Where holding an instance succeeds, the file and the cache have the metadata that the response
-- sums up, and they say that it is held.
pub hold_instance-records :
    (env : Env) (w : World) (id : InstanceId) (r : InstanceActionResponse)
    → (hold_instance env id w).0 ≡ ok r
    → (m : InstanceMetadata) × Recorded id m (hold_instance env id w).1
      × (r.summary ≡ summary env m)
      × (m.held ≡ true)
unfolding hold_instance plain_response
hold_instance-records env w id r h = held.after w tt r h
  where
    held :
        Leaves
          (λ v. Unit {0})
          (λ r v.
            (m : InstanceMetadata) × Recorded id m v
            × (r.summary ≡ summary env m)
            × (m.held ≡ true))
          (hold_instance env id)
    held =
        Leaves-then _ _ (record { run = λ s p. tt })
          λ m.
            Leaves-then _ _ (record { run = λ s p. tt })
              λ now. Leaves-bind _ _ (write_metadata-Leaves env id _) λ a.
                Leaves-bind _ _ (cache_insert-Leaves env id _)
                  λ a. Leaves-pure _ λ w r. (_, r, refl, refl)
