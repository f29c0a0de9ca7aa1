-- ===== src/Manager/Destroy/Removed.antt =====
-- cuttlefish/cfctl/src/daemon/manager.rs: what a destroy that succeeds leaves behind.
use fundroid.Prelude.{
  ℕ, ◌≡◌, refl, ◌⊎◌, inl, inr, Bool, true, false, Option, none, some, is_some, if◌then◌else◌, arith,
  sym, ◌∙◌,
}
use fundroid.Exec.{Result, ok, err, stuck, pure}
use fundroid.Exec.Keeps.{Keeps, Keeps-attempt, keeps_rules}
use fundroid.Exec.Leaves.{Leaves, Leaves-bind, Leaves-then, Leaves-pure}
use fundroid.Exec.Returns.{ok-injective}
use fundroid.Protocol.{Message, InstanceId, destroyed, InstanceSummary}
use fundroid.Files.{
  InstanceMetadata, Slot, Node, metadata_file, file, json, env_file, slot_eq, instance_dir,
  assembly_dir,
}
use fundroid.Host.{Env, World}
use fundroid.Host.Fs
use fundroid.Host.Untouched.{exists-Untouched}
use fundroid.Manager.Metadata.{write_metadata}
use fundroid.Manager.Metadata.Recorded.{write_metadata-Leaves}
use fundroid.Manager.Cleanup.{kill_guest_processes, cleanup_host_state, rename_to_trash}
use fundroid.Manager.Cleanup.Untouched.{kill_guest_processes-Untouched}
use fundroid.Manager.Cleanup.Settled.{Respects, Untouched-Keeps, cleanup_host_state-Keeps}
use fundroid.Manager.Terminate.{terminate_guest}
use fundroid.Manager.Terminate.Gone.{terminate_guest-unregisters}
use fundroid.Manager.Terminate.Disk.{terminate_guest-Stays}
use fundroid.Manager.Destroy.{
  destroyed_at, prepare_destroy, remove_present, remove_instance_artifacts, forget, settle,
  finish_destroy,
}

-- The metadata file is gone, or says that the instance is destroyed.
abbrev pub Dead : InstanceId → World → Type 0
Dead id v =
    (v.disk metadata_file id ≡ none)
    ⊎ ((m : InstanceMetadata) × (v.disk metadata_file id ≡ some (file (json m)))
        × (m.state ≡ destroyed))

-- And no handle is registered.
abbrev pub Removed : InstanceId → World → Type 0
Removed id v = Dead id v × (v.registry id ≡ none)

-- The summary of a destroyed instance.
abbrev pub gone : InstanceId → InstanceSummary
gone id = record { id = id; adb = none; state = destroyed }

Dead-same :
    (id : InstanceId) (w v : World)
    → v.disk metadata_file id ≡ w.disk metadata_file id
    → Dead id w
    → Dead id v
Dead-same id w v same (inl gone) = inl (same ∙ gone)
Dead-same id w v same (inr (m, there, dead)) = inr (m, same ∙ there, dead)

module _ (env : Env) (id : InstanceId) where
  Removed-Respects : Respects id (Removed id)
  Removed-Respects w v u p = (Dead-same id w v (u.disk_at metadata_file) p.0, u.registry_at ∙ p.1)

  exists-Leaves :
      {E : Type 0}
      → Leaves {E = E}
          (λ v. Unit {0})
          (λ b v. b ≡ is_some (v.disk metadata_file id))
          (Fs.exists env metadata_file id)
  unfolding Fs.exists
  exists-Leaves = record { after = λ v p b h. sym (ok-injective _ refl h) }

  not_there : (o : Option Node) → false ≡ is_some o → o ≡ none
  not_there none h = refl
  not_there (some n) h = cc

  written-Dead :
      (present : Bool) (m : InstanceMetadata)
      → m.state ≡ destroyed
      → Leaves
          (λ v. present ≡ is_some (v.disk metadata_file id))
          (λ a. Dead id)
          (if present then write_metadata env id m else pure tt)
  written-Dead true m dead = record {
    after = λ v p a h. inr (m, (write_metadata-Leaves env id m).after v tt a h, dead);
  }
  written-Dead false m dead = Leaves-pure tt λ v p. inl (not_there _ p)

  terminate_guest-Removed :
      (grace : ℕ) → Leaves (Dead id) (λ e. Removed id) (terminate_guest env id grace)
  terminate_guest-Removed grace = record {
    after = λ v p e h. (
      Dead-same id v (terminate_guest env id grace v).1
          ((terminate_guest-Stays env id metadata_file _ grace).run v refl) p,
      terminate_guest-unregisters env id grace v e h,
    );
  }

  kill_guest_processes-Removed : Keeps (Removed id) (kill_guest_processes env id)
  kill_guest_processes-Removed =
      Untouched-Keeps id (Removed id) _ Removed-Respects
        λ w. kill_guest_processes-Untouched env id w id

  pub prepare_destroy-Removed :
      Leaves (λ v. Unit {0}) (λ s v. Removed id v × (s ≡ gone id)) (prepare_destroy env id)
  unfolding prepare_destroy destroyed_at
  prepare_destroy-Removed =
      Leaves-then _ _ (record { run = λ v p. tt })
        λ old.
          Leaves-then _ _ (record { run = λ v p. tt })
            λ now. Leaves-bind _ _ exists-Leaves λ present.
              Leaves-bind _ _ (written-Dead present _ refl) λ a.
                Leaves-then _ _ (record { run = λ v p. p })
                  λ b. Leaves-bind _ _ (terminate_guest-Removed 5000) λ exit.
                    Leaves-then _ _ kill_guest_processes-Removed λ c. Leaves-pure _ λ v p. (p, refl)

  trashed-Removed :
      (s : Slot) → slot_eq s metadata_file ≡ false → Keeps (Removed id) (rename_to_trash env s id)
  unfolding rename_to_trash
  trashed-Removed s other = record {
    run = λ w p. (
      Dead-same id w (rename_to_trash env s id w).1 (ground (arith, other)) p.0,
      ground (arith, p.1),
    );
  }

  cleanup_host_state-Removed : Keeps (Removed id) (cleanup_host_state env id)
  cleanup_host_state-Removed =
      cleanup_host_state-Keeps env id (Removed id) Removed-Respects
        (trashed-Removed instance_dir refl) (trashed-Removed assembly_dir refl)

  exists-Removed : {E : Type 0} (s : Slot) → Keeps (Removed id) (Fs.exists {E = E} env s id)
  exists-Removed s =
      Untouched-Keeps id (Removed id) _ Removed-Respects λ w. exists-Untouched env id w s id

  remove_file-Removed : Keeps (Removed id) (Fs.remove_file env env_file id)
  unfolding Fs.remove_file
  remove_file-Removed = record {
    run = λ w p. (
      Dead-same id w (Fs.remove_file env env_file id w).1 (ground arith) p.0,
      ground (arith, p.1),
    );
  }

  remove_root-disk :
      (w : World)
      → ((Fs.remove_root env id w).1.disk metadata_file id ≡ none)
        ⊎ ((Fs.remove_root env id w).1.disk metadata_file id ≡ w.disk metadata_file id)
  unfolding Fs.remove_root
  remove_root-disk w = ground arith

  remove_root-registry : (w : World) → (Fs.remove_root env id w).1.registry id ≡ w.registry id
  unfolding Fs.remove_root
  remove_root-registry w = ground arith

  remove_root-Removed : Keeps (Removed id) (Fs.remove_root env id)
  remove_root-Removed = record {
    run = λ w p. (
      elim (remove_root-disk w) [
        | inl gone ↦ inl gone
        | inr same ↦ Dead-same id w (Fs.remove_root env id w).1 same p.0
      ],
      remove_root-registry w ∙ p.1,
    );
  }

  remove_instance_artifacts-Removed : Keeps (Removed id) (remove_instance_artifacts env id)
  unfolding remove_instance_artifacts remove_present
  remove_instance_artifacts-Removed =
      search (keeps_rules, exists-Removed, remove_file-Removed, remove_root-Removed) depth 12

  forget-Removed : (r : Result Message (Unit {0})) → Keeps (Removed id) (forget id r)
  unfolding forget
  forget-Removed (ok u) = record { run = λ v p. p }
  forget-Removed (err e) = record { run = λ v p. p }
  forget-Removed stuck = record { run = λ v p. p }

  settle-Removed :
      (b : Bool) → Leaves (Removed id) (λ u v. b ≡ true → Removed id v) (settle env id b)
  unfolding settle
  settle-Removed true =
      Leaves-then _ _ (Keeps-attempt _ remove_instance_artifacts-Removed)
        λ removed. record { after = λ v p u h same. (forget-Removed removed).run v p }
  settle-Removed false = record { after = λ v p u h same. cc }

  pub finish_destroy-Removed :
      Leaves
        (Removed id)
        (λ o v. o.guest_processes_killed ≡ true → Removed id v)
        (finish_destroy env id)
  unfolding finish_destroy
  finish_destroy-Removed = Leaves-then _ _ cleanup_host_state-Removed λ o.
      Leaves-bind {R = λ u v. o.guest_processes_killed ≡ true → Removed id v} _ _
        (settle-Removed o.guest_processes_killed) λ u. Leaves-pure _ λ v p. p
