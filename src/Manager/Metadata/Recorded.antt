-- ===== src/Manager/Metadata/Recorded.antt =====
-- cuttlefish/cfctl/src/daemon/manager.rs: metadata that stand in the file and in the cache alike.
use fundroid.Prelude.{◌≡◌, inl, inr, some, false, arith}
use fundroid.Exec.{◌>>=◌}
use fundroid.Exec.Keeps.{Keeps, keeps_rules}
use fundroid.Exec.Leaves.{Leaves}
use fundroid.Protocol.{InstanceId}
use fundroid.Files.{
  InstanceMetadata, Slot, slot_eq, metadata_file, file, json, Contents, env_tmp, env_file,
}
use fundroid.Host.{Env, World, attempt_call}
use fundroid.Host.Fs
use fundroid.Host.Os.{epoch_secs}
use fundroid.Manager.Metadata.{write_metadata, write_env_file, cache_insert}
use fundroid.Manager.Metadata.Atomic.{write_metadata-atomic}

abbrev pub OnDisk : InstanceId → InstanceMetadata → World → Type 0
OnDisk id m v = v.disk metadata_file id ≡ some (file (json m))

-- The file has these metadata, and the cache too.
abbrev pub Recorded : InstanceId → InstanceMetadata → World → Type 0
Recorded id m v = (v.cache id ≡ some m) × OnDisk id m v

module _ (env : Env) (id : InstanceId) (m : InstanceMetadata) where
  pub write_metadata-Leaves : Leaves (λ v. Unit {0}) (λ a. OnDisk id m) (write_metadata env id m)
  write_metadata-Leaves = record {
    after = λ w p a h. elim (write_metadata-atomic env id m w) [
      | inl (done, new) ↦ new
      | inr (failed, old) ↦ absurd (failed h)
    ];
  }

  pub cache_insert-Leaves :
      {E : Type 0} → Leaves {E = E} (OnDisk id m) (λ a. Recorded id m) (cache_insert id m)
  cache_insert-Leaves = record { after = λ w p a h. (ground arith, p) }

  write-OnDisk :
      (s : Slot) (c : Contents)
      → (slot_eq s metadata_file) ≡ false
      → Keeps (OnDisk id m) (Fs.write env s id c)
  unfolding Fs.write
  write-OnDisk s c other = record { run = λ w p. ground arith }

  rename-OnDisk : Keeps (OnDisk id m) (Fs.rename env env_tmp env_file id)
  unfolding Fs.rename
  rename-OnDisk = record { run = λ w p. ground arith }

  attempt_call-OnDisk : Keeps (OnDisk id m) (attempt_call env)
  attempt_call-OnDisk = record { run = λ w p. p }

  pub epoch_secs-OnDisk : Keeps (OnDisk id m) (epoch_secs env)
  unfolding epoch_secs
  epoch_secs-OnDisk = record { run = λ w p. p }

  pub write_env_file-OnDisk : (n : InstanceMetadata) → Keeps (OnDisk id m) (write_env_file env id n)
  unfolding write_env_file
  write_env_file-OnDisk n =
      search (keeps_rules, write-OnDisk, rename-OnDisk, attempt_call-OnDisk, epoch_secs-OnDisk)
        depth 14

module _ (env : Env) (id : InstanceId) where
  pub write_metadata-registry :
      (m : InstanceMetadata) (w : World) → (write_metadata env id m w).1.registry id ≡ w.registry id
  unfolding write_metadata Fs.create_dir_all Fs.write Fs.rename ◌>>=◌
  write_metadata-registry m w = ground arith
