-- ===== src/Manager/Metadata/Atomic.antt =====
-- cuttlefish/cfctl/src/daemon/manager.rs: what `write_metadata` leaves behind.
use fundroid.Prelude.{◌≡◌, ◌≢◌, ◌⊎◌, some, arith}
use fundroid.Exec.{ok, ◌>>=◌}
use fundroid.Protocol.{InstanceId}
use fundroid.Files.{InstanceMetadata, json, file, metadata_file}
use fundroid.Host.{Env, World}
use fundroid.Host.Fs
use fundroid.Manager.Metadata.{write_metadata}

module _ (env : Env) (id : InstanceId) (m : InstanceMetadata) (w : World) where
  -- Whatever calls fail, writing the metadata either succeeds and leaves the bytes of the new
  -- metadata in the file, or does not succeed and leaves the file as it was.
  pub write_metadata-atomic :
      ((write_metadata env id m w).0 ≡ ok tt
        × ((write_metadata env id m w).1.disk metadata_file id ≡ some (file (json m))))
      ⊎ ((write_metadata env id m w).0 ≢ ok tt
          × ((write_metadata env id m w).1.disk metadata_file id ≡ w.disk metadata_file id))
  unfolding write_metadata Fs.create_dir_all Fs.write Fs.rename ◌>>=◌
  write_metadata-atomic = ground arith
