-- ===== src/Manager/Destroy/Deployed.antt =====
-- cuttlefish/cfctl/src/daemon/manager.rs: what a deploy that succeeds leaves behind.
use fundroid.Prelude.{ℕ, ◌≡◌, refl, subst, ap, ◌∙◌}
use fundroid.Exec.{ok, ◌>>◌}
use fundroid.Exec.Keeps.{Keeps}
use fundroid.Exec.Leaves.{Leaves, Leaves-bind, Leaves-then, Leaves-fact, Leaves-given}
use fundroid.Protocol.{Message, DeployRequest}
use fundroid.Files.{InstanceMetadata, inside, Disk, boot_artifact, init_boot_artifact}
use fundroid.Host.{Env, World, Action}
use fundroid.Host.Os.{epoch_secs}
use fundroid.Manager.Metadata.{metadata, write_metadata, write_env_file, cache_insert}
use fundroid.Manager.Metadata.Recorded.{
  OnDisk, Recorded, write_metadata-Leaves, write_env_file-OnDisk, cache_insert-Leaves,
}
use fundroid.Manager.Destroy.{deploy}
use fundroid.Manager.Destroy.Images.{
  image_of, Copied, Copied-same, IsArtifact, applied, boot-applied, init-applied, copy_image-Leaves,
  write-Copied, write_metadata-Copied, write_env_file-Copied,
}

module _ (env : Env) (req : DeployRequest) where
  abbrev pub Images : World → Type 0
  Images v =
      Copied init_boot_artifact req.id req.init_boot_image v
      × Copied boot_artifact req.id req.boot_image v

  Images-Keeps :
      {A : Type 0} (m : Action A)
      → Keeps (Copied init_boot_artifact req.id req.init_boot_image) m
      → Keeps (Copied boot_artifact req.id req.boot_image) m
      → Keeps Images m
  Images-Keeps m i b = record { run = λ w p. (i.run w p.0, b.run w p.1) }

  Images-same : (w v : World) → v.disk ≡ w.disk → Images w → Images v
  Images-same w v same p = (
    Copied-same init_boot_artifact req.id req.init_boot_image w v
        (ap (λ (d : Disk). d init_boot_artifact req.id) same) p.0,
    Copied-same boot_artifact req.id req.boot_image w v
        (ap (λ (d : Disk). d boot_artifact req.id) same) p.1,
  )

  write_metadata-Images : (m : InstanceMetadata) → Keeps Images (write_metadata env req.id m)
  write_metadata-Images m =
      Images-Keeps _
        (write_metadata-Copied env req.id _ req.init_boot_image (refl, refl, refl, refl, refl) m)
        (write_metadata-Copied env req.id _ req.boot_image (refl, refl, refl, refl, refl) m)

  write_env_file-Images : (m : InstanceMetadata) → Keeps Images (write_env_file env req.id m)
  write_env_file-Images m =
      Images-Keeps _
        (write_env_file-Copied env req.id _ req.init_boot_image (refl, refl, refl, refl, refl) m)
        (write_env_file-Copied env req.id _ req.boot_image (refl, refl, refl, refl, refl) m)

  written-Images :
      (m : InstanceMetadata)
      → Leaves Images
          (λ a v. Recorded req.id m v × Images v)
          (do write_metadata env req.id m; write_env_file env req.id m; cache_insert req.id m)
  written-Images m =
      Leaves-bind {R = λ a v. OnDisk req.id m v × Images v} _ _
        (record {
          after = λ w p a h. (
            (write_metadata-Leaves env req.id m).after w tt a h,
            (write_metadata-Images m).run w p,
          );
        })
        λ a.
          Leaves-then _ _
            (record {
              run = λ w p. (
                (write_env_file-OnDisk env req.id m m).run w p.0,
                (write_env_file-Images m).run w p.1,
              );
            })
            λ b. record {
              after = λ w p u h. (
                (cache_insert-Leaves env req.id m).after w p.0 u h,
                Images-same w (cache_insert {E = Message} req.id m w).1 refl p.1,
              );
            }

module _ (env : Env) (req : DeployRequest) (w : World) where
  -- The old metadata, with the images that were given and the time of the change.
  abbrev pub Deployed : World → Type 0
  Deployed v =
      (old : InstanceMetadata) × (now : ℕ) × ((metadata env req.id w).0 ≡ ok old)
      × Recorded req.id
          (record old {
            boot_image = image_of boot_artifact req.id req.boot_image old.boot_image;
            init_boot_image =
                image_of init_boot_artifact req.id req.init_boot_image old.init_boot_image;
            updated_at = now;
          })
          v
      × Images env req v

  abbrev after_deploy : InstanceMetadata → ℕ → World → World
  after_deploy m now v =
      ((do
        write_metadata env req.id (record m { updated_at = now })
        write_env_file env req.id (record m { updated_at = now })
        cache_insert req.id (record m { updated_at = now }))
        v).1

  Recorded-same :
      {m n : InstanceMetadata} (now : ℕ) (v : World)
      → m ≡ n
      → Recorded req.id (record m { updated_at = now }) v
      → Recorded req.id (record n { updated_at = now }) v
  Recorded-same now v same = subst (λ k. Recorded req.id (record k { updated_at = now }) v) same

  artifact : IsArtifact boot_artifact
  artifact = (refl, refl, refl, refl, refl)

  images :
      (old booted imaged : InstanceMetadata)
      → booted
        ≡ applied req.boot_image (λ n. record n { boot_image = inside boot_artifact req.id }) old
      → imaged
        ≡ applied req.init_boot_image
            (λ n. record n { init_boot_image = inside init_boot_artifact req.id })
            booted
      → imaged ≡ record old {
        boot_image = image_of boot_artifact req.id req.boot_image old.boot_image;
        init_boot_image =
            image_of init_boot_artifact req.id req.init_boot_image old.init_boot_image;
      }
  images old booted imaged first second =
      second
      ∙ init-applied req.id req.init_boot_image booted
      ∙ ap {A = InstanceMetadata}
          (λ m. record m {
            init_boot_image =
                image_of init_boot_artifact req.id req.init_boot_image m.init_boot_image;
          })
          (first ∙ boot-applied req.id req.boot_image old)

  deploy-Deployed : Leaves (λ s. s ≡ w) (λ u. Deployed) (deploy env req)
  unfolding deploy epoch_secs
  deploy-Deployed =
      Leaves-bind {R = λ old v. (metadata env req.id w).0 ≡ ok old} _ _
        (record { after = λ s p old h. subst (λ x. (metadata env req.id x).0 ≡ ok old) p h })
        λ old. Leaves-fact _ λ known.
          Leaves-bind _ _
            (copy_image-Leaves env req.id boot_artifact req.boot_image old _ (λ v. Unit {0})
              λ c. record { run = λ v p. tt })
            λ booted. Leaves-given _ λ first.
              Leaves-bind _ _
                (copy_image-Leaves env req.id init_boot_artifact req.init_boot_image booted _
                  (λ v. Copied boot_artifact req.id req.boot_image v × Unit {0})
                  λ c. record {
                    run = λ v p. (
                      (write-Copied env req.id boot_artifact req.boot_image artifact
                            init_boot_artifact c refl).run
                          v p.0,
                      tt,
                    );
                  })
                λ imaged. Leaves-given _ λ second.
                  Leaves-bind {R = λ now. Images env req} _ _
                    (record {
                      after =
                          λ v p now h. Images-same env req v (epoch_secs env v).1 refl (p.0, p.1.0);
                    })
                    λ now. record {
                      after = λ v p u h.
                          let recorded = (written-Images env req _).after v p u h in
                          (
                            old,
                            now,
                            known,
                            Recorded-same now (after_deploy imaged now v)
                                (images old booted imaged first second) recorded.0,
                            recorded.1,
                          );
                    }

  -- Where a deploy succeeds, each image that was given lies in its file, and the metadata, in the file
  -- and in the cache, are the old ones with the paths of these images and another time of change.
  pub deploy-records : (deploy env req w).0 ≡ ok tt → Deployed (deploy env req w).1
  deploy-records h = deploy-Deployed.after w refl tt h
