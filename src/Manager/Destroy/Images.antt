-- ===== src/Manager/Destroy/Images.antt =====
-- cuttlefish/cfctl/src/daemon/manager.rs: the images that `deploy` copies.
use fundroid.Prelude.{◌≡◌, refl, false, Option, none, some, arith, ◌∙◌}
use fundroid.Exec.{◌>>=◌}
use fundroid.Exec.Keeps.{Keeps, Keeps-bind}
use fundroid.Exec.Leaves.{Leaves, Leaves-bind, Leaves-pure, Leaves-map_err}
use fundroid.Text.{Text}
use fundroid.Protocol.{InstanceId}
use fundroid.Files.{
  InstanceMetadata, PathBuf, inside, copy_of, Slot, Contents, file, slot_eq, boot_artifact,
  init_boot_artifact, metadata_file, metadata_tmp, env_file, env_tmp, root,
}
use fundroid.Host.{Env, World, attempt_call}
use fundroid.Host.Fs
use fundroid.Host.Os.{epoch_secs}
use fundroid.Manager.Metadata.{write_metadata, write_env_file}
use fundroid.Manager.Destroy.{copy_image}

-- The image that was given, or else what was there.
abbrev pub image_of : Slot → InstanceId → Option Text → PathBuf → PathBuf
image_of s id none old = old
image_of s id (some source) old = inside s id

-- A given image lies in its slot.
abbrev pub Copied : Slot → InstanceId → Option Text → World → Type 0
Copied s id none v = Unit {0}
Copied s id (some source) v = v.disk s id ≡ some (file (copy_of source))

abbrev pub IsArtifact : Slot → Type 0
IsArtifact s =
    (slot_eq s root ≡ false)
    × (slot_eq s metadata_tmp ≡ false)
    × (slot_eq s metadata_file ≡ false)
    × (slot_eq s env_tmp ≡ false)
    × (slot_eq s env_file ≡ false)

pub Copied-same :
    (s : Slot) (id : InstanceId) (image : Option Text) (w v : World)
    → v.disk s id ≡ w.disk s id
    → Copied s id image w
    → Copied s id image v
Copied-same s id none w v same c = tt
Copied-same s id (some source) w v same c = same ∙ c

-- The writes to other files.
module _ (env : Env) (id : InstanceId) (s : Slot) (image : Option Text)
    (artifact : IsArtifact s) where
  pub write_metadata-Copied :
      (m : InstanceMetadata) → Keeps (Copied s id image) (write_metadata env id m)
  unfolding write_metadata Fs.create_dir_all Fs.write Fs.rename ◌>>=◌
  write_metadata-Copied m = record {
    run =
        λ w p. Copied-same s id image w (write_metadata env id m w).1 (ground (arith, artifact)) p;
  }

  pub write-Copied :
      (t : Slot) (c : Contents)
      → slot_eq s t ≡ false
      → Keeps (Copied s id image) (Fs.write env t id c)
  unfolding Fs.write
  write-Copied t c other = record {
    run = λ w p. Copied-same s id image w (Fs.write env t id c w).1 (ground (arith, other)) p;
  }

  rename-Copied : Keeps (Copied s id image) (Fs.rename env env_tmp env_file id)
  unfolding Fs.rename
  rename-Copied = record {
    run = λ w p.
        Copied-same s id image w (Fs.rename env env_tmp env_file id w).1 (ground (arith, artifact))
          p;
  }

  call-Copied : Keeps (Copied s id image) (attempt_call env)
  call-Copied = record { run = λ w p. Copied-same s id image w _ refl p }

  clock-Copied : Keeps (Copied s id image) (epoch_secs env)
  unfolding epoch_secs
  clock-Copied = record { run = λ w p. Copied-same s id image w _ refl p }

  pub write_env_file-Copied :
      (m : InstanceMetadata) → Keeps (Copied s id image) (write_env_file env id m)
  unfolding write_env_file
  write_env_file-Copied m = Keeps-bind _ _ (write-Copied env_tmp _ artifact.3) λ a.
      Keeps-bind _ _ clock-Copied λ now.
        Keeps-bind _ _ (write-Copied env_tmp _ artifact.3)
          λ b. Keeps-bind _ _ call-Copied λ c. Keeps-bind _ _ rename-Copied λ d. call-Copied

abbrev pub applied :
    Option Text → (InstanceMetadata → InstanceMetadata) → InstanceMetadata → InstanceMetadata
applied none moved m = m
applied (some source) moved m = moved m

pub boot-applied :
    (id : InstanceId) (image : Option Text) (m : InstanceMetadata)
    → applied image (λ n. record n { boot_image = inside boot_artifact id }) m
      ≡ record m { boot_image = image_of boot_artifact id image m.boot_image }
boot-applied id none m = refl
boot-applied id (some source) m = refl

pub init-applied :
    (id : InstanceId) (image : Option Text) (m : InstanceMetadata)
    → applied image (λ n. record n { init_boot_image = inside init_boot_artifact id }) m
      ≡ record m { init_boot_image = image_of init_boot_artifact id image m.init_boot_image }
init-applied id none m = refl
init-applied id (some source) m = refl

-- A copy of an image, beside what it leaves alone.
pub copy_image-Leaves :
    (env : Env) (id : InstanceId) (s : Slot) (image : Option Text) (m : InstanceMetadata)
    (moved : InstanceMetadata → InstanceMetadata) (P : World → Type 0)
    → ((c : Contents) → Keeps P (Fs.write env s id c))
    → Leaves P
        (λ n v. (n ≡ applied image moved m) × (Copied s id image v × P v))
        (copy_image env id s image m moved)
unfolding copy_image Fs.write
copy_image-Leaves env id s none m moved P keep = Leaves-pure m λ w p. (refl, (tt, p))
copy_image-Leaves env id s (some source) m moved P keep =
    Leaves-bind {R = λ u v. Copied s id (some source) v × P v} _ _
      (Leaves-map_err _ _
        (record { after = λ w p u h. (ground (arith, h), (keep (copy_of source)).run w p) }))
      λ u. Leaves-pure _ λ w p. (refl, p)
