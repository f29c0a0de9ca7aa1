-- ===== src/Host/Untouched.antt =====
-- What an operation on one instance leaves alone: the files, the cached metadata and the registered
-- handle of every other instance. The directories under /tmp and the processes that end with a
-- `pkill`, which is up to the host, are not among them. Here for the calls of the host; the
-- operations of the manager have their lemmas in modules below their own.
use fundroid.Prelude.{ℕ, ◌≡◌, ◌≢◌, refl, ap, ◌∙◌, arith}
use fundroid.Exec.Keeps.{Keeps}
use fundroid.Prelude.Table.{Table}
use fundroid.Files.{Slot, Contents, Disk, InstanceMetadata}
use fundroid.Host.{Env, World, Command, Task, attempt_call}
use fundroid.Host.Fs
use fundroid.Host.Os

pub record Untouched (i : ℕ) (w v : World) : Type 0 where
  pub disk_at : (s : Slot) → v.disk s i ≡ w.disk s i
  pub cache_at : v.cache i ≡ w.cache i
  pub registry_at : v.registry i ≡ w.registry i

pub Untouched-refl : (i : ℕ) (w : World) → Untouched i w w
Untouched-refl i w = record { disk_at = λ s. refl; cache_at = refl; registry_at = refl }

-- A step that changes none of the three.
pub Untouched-same :
    {i : ℕ} {w v : World} (v' : World)
    → Untouched i w v
    → v'.disk ≡ v.disk
    → v'.cache ≡ v.cache
    → v'.registry ≡ v.registry
    → Untouched i w v'
Untouched-same {i} v' u d c r = record {
  disk_at = λ s. ap (λ (k : Disk). k s i) d ∙ u.disk_at s;
  cache_at = ap (λ (k : Table InstanceMetadata). k i) c ∙ u.cache_at;
  registry_at = ap (λ (k : Table ℕ). k i) r ∙ u.registry_at;
}

-- Calls that change no file.
module _ (env : Env) (i : ℕ) (w : World) where
  pub attempt_call-Untouched : Keeps (Untouched i w) (attempt_call env)
  attempt_call-Untouched = record { run = λ v u. Untouched-same _ u refl refl refl }

  pub exists-Untouched :
      {E : Type 0} (s : Slot) (j : ℕ) → Keeps (Untouched i w) (Fs.exists {E = E} env s j)
  unfolding Fs.exists
  exists-Untouched s j = record { run = λ v u. Untouched-same _ u refl refl refl }

  pub read-Untouched : (s : Slot) (j : ℕ) → Keeps (Untouched i w) (Fs.read env s j)
  unfolding Fs.read
  read-Untouched s j = record {
    run = λ v u. record {
      disk_at = λ t. ground (arith, u.disk_at t);
      cache_at = ground (arith, u.cache_at);
      registry_at = ground (arith, u.registry_at);
    };
  }

  pub epoch_secs-Untouched : Keeps (Untouched i w) (Os.epoch_secs env)
  unfolding Os.epoch_secs
  epoch_secs-Untouched = record { run = λ v u. Untouched-same _ u refl refl refl }

  pub instant_now-Untouched : {E : Type 0} → Keeps (Untouched i w) (Os.instant_now {E = E} env)
  unfolding Os.instant_now
  instant_now-Untouched = record { run = λ v u. Untouched-same _ u refl refl refl }

  pub sleep_ms-Untouched :
      {E : Type 0} (ms : ℕ) → Keeps (Untouched i w) (Os.sleep_ms {E = E} env ms)
  unfolding Os.sleep_ms
  sleep_ms-Untouched ms = record { run = λ v u. Untouched-same _ u refl refl refl }

  pub run-Untouched : (c : Command) → Keeps (Untouched i w) (Os.run env c)
  unfolding Os.run
  run-Untouched c = record { run = λ v u. Untouched-same _ u refl refl refl }

module _ (i : ℕ) (w : World) where
  pub spawn-Untouched : {E : Type 0} (t : Task) → Keeps (Untouched i w) (Os.spawn {E = E} t)
  unfolding Os.spawn
  spawn-Untouched t = record { run = λ v u. Untouched-same _ u refl refl refl }

-- Calls on the files of another instance.
module _ (env : Env) (i j : ℕ) (other : i ≢ j) (w : World) where
  pub create_dir_all-Untouched : (s : Slot) → Keeps (Untouched i w) (Fs.create_dir_all env s j)
  unfolding Fs.create_dir_all
  create_dir_all-Untouched s = record {
    run = λ v u. record {
      disk_at = λ t. ground (arith, u.disk_at t);
      cache_at = ground (arith, u.cache_at);
      registry_at = ground (arith, u.registry_at);
    };
  }

  pub write-Untouched : (s : Slot) (c : Contents) → Keeps (Untouched i w) (Fs.write env s j c)
  unfolding Fs.write
  write-Untouched s c = record {
    run = λ v u. record {
      disk_at = λ t. ground (arith, u.disk_at t);
      cache_at = ground (arith, u.cache_at);
      registry_at = ground (arith, u.registry_at);
    };
  }

  pub rename-Untouched : (from to : Slot) → Keeps (Untouched i w) (Fs.rename env from to j)
  unfolding Fs.rename
  rename-Untouched from to = record {
    run = λ v u. record {
      disk_at = λ t. ground (arith, u.disk_at t);
      cache_at = ground (arith, u.cache_at);
      registry_at = ground (arith, u.registry_at);
    };
  }

  pub remove_file-Untouched : (s : Slot) → Keeps (Untouched i w) (Fs.remove_file env s j)
  unfolding Fs.remove_file
  remove_file-Untouched s = record {
    run = λ v u. record {
      disk_at = λ t. ground (arith, u.disk_at t);
      cache_at = ground (arith, u.cache_at);
      registry_at = ground (arith, u.registry_at);
    };
  }

  pub remove_root-Untouched : Keeps (Untouched i w) (Fs.remove_root env j)
  unfolding Fs.remove_root
  remove_root-Untouched = record {
    run = λ v u. record {
      disk_at = λ t. ground (arith, u.disk_at t);
      cache_at = ground (arith, u.cache_at);
      registry_at = ground (arith, u.registry_at);
    };
  }
