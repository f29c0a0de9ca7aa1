-- ===== src/Manager/Start/Launched.antt =====
-- cuttlefish/cfctl/src/daemon/manager.rs: what a start that does not wait for adb leaves behind.
use fundroid.Prelude.{ℕ, ◌≡◌, true, some, none, arith, refl, subst, List, ◌∷◌}
use fundroid.Prelude.Table
use fundroid.Exec.{Exec, Result, ok, err, stuck, pure, modify, ◌>>=◌, ◌>>◌}
use fundroid.Exec.Keeps.{Keeps, keeps_rules}
use fundroid.Exec.Returns.{ok-injective}
use fundroid.Exec.Leaves.{
  Leaves, Leaves-bind, Leaves-then, Leaves-map_err, Leaves-if, Leaves-fail, leaves_rules,
}
use fundroid.Protocol.{
  Message, InstanceId, running, InstanceActionResponse, StartOptions, ErrorDetail,
}
use fundroid.Files.{InstanceMetadata, Slot, Contents}
use fundroid.Host.{Env, World, exit_watcher, Task}
use fundroid.Host.Fs
use fundroid.Host.Os
use fundroid.Guest.{new_handle, insert}
use fundroid.Manager.Metadata.{summary, metadata, write_metadata, cache_insert}
use fundroid.Manager.Metadata.Source.{metadata-Keeps}
use fundroid.Manager.Metadata.Recorded.{OnDisk, Recorded, write_metadata-Leaves}
use fundroid.Manager.Alloc.{plain_response}
use fundroid.Manager.Terminate.{spawn_exit_watcher}
use fundroid.Manager.Start.{
  register, spawn_failed, spawned, launch, start_without_adb, start_instance,
}

-- The handle is the registered one, and holds its child.
record Launched (id : InstanceId) (h : ℕ) (v : World) : Type 0 where
  registered : v.registry id ≡ some h
  holds : (v.handles h).child ≡ true
  runs : (v.handles h).exit ≡ none

Keeps-nothing : {S E A : Type 0} (m : Exec S E A) → Keeps (λ s. Unit {0}) m
Keeps-nothing m = record { run = λ s p. tt }

module _ (env : Env) (id : InstanceId) where
  register-Launched : (pid : ℕ) (v : World) → Launched id v.next_handle (register id pid v)
  unfolding register insert new_handle
  register-Launched pid v = record {
    registered = ground arith;
    holds = ground arith;
    runs = ground arith;
  }

  spawn_failed-Launched :
      (m : InstanceMetadata) (e : Message)
      → Leaves (λ v. Unit {0}) (λ h. Launched id h) (spawn_failed env id m e)
  unfolding spawn_failed
  spawn_failed-Launched m e = search (leaves_rules, Keeps-nothing) depth 9

  spawned-Launched :
      (m : InstanceMetadata) (r : Result Message ℕ)
      → Leaves (λ v. Unit {0}) (λ h. Launched id h) (spawned env id m r)
  unfolding spawned ◌>>=◌
  spawned-Launched m (ok pid) = record {
    after = λ v p h e.
        subst (λ k. Launched id k (register id pid v)) (ok-injective _ refl e)
          (register-Launched pid v);
  }
  spawned-Launched m (err e) = spawn_failed-Launched m e
  spawned-Launched m stuck = search leaves_rules

  launch-Launched :
      (options : StartOptions) → Leaves (λ v. Unit {0}) (λ h. Launched id h) (launch env id options)
  unfolding launch
  launch-Launched options = search (leaves_rules, Keeps-nothing, spawned-Launched) depth 30

-- The steps before the watcher change neither handles nor the registry.
module _ (env : Env) (id h : ℕ) where
  read-Launched : (s : Slot) (j : ℕ) → Keeps (Launched id h) (Fs.read env s j)
  unfolding Fs.read
  read-Launched s j = record {
    run = λ v l. record {
      registered = ground (arith, l.registered);
      holds = ground (arith, l.holds);
      runs = ground (arith, l.runs);
    };
  }

  create_dir_all-Launched : (s : Slot) (j : ℕ) → Keeps (Launched id h) (Fs.create_dir_all env s j)
  unfolding Fs.create_dir_all
  create_dir_all-Launched s j = record {
    run = λ v l. record {
      registered = ground (arith, l.registered);
      holds = ground (arith, l.holds);
      runs = ground (arith, l.runs);
    };
  }

  write-Launched : (s : Slot) (j : ℕ) (c : Contents) → Keeps (Launched id h) (Fs.write env s j c)
  unfolding Fs.write
  write-Launched s j c = record {
    run = λ v l. record {
      registered = ground (arith, l.registered);
      holds = ground (arith, l.holds);
      runs = ground (arith, l.runs);
    };
  }

  rename-Launched : (from to : Slot) (j : ℕ) → Keeps (Launched id h) (Fs.rename env from to j)
  unfolding Fs.rename
  rename-Launched from to j = record {
    run = λ v l. record {
      registered = ground (arith, l.registered);
      holds = ground (arith, l.holds);
      runs = ground (arith, l.runs);
    };
  }

  epoch_secs-Launched : Keeps (Launched id h) (Os.epoch_secs env)
  unfolding Os.epoch_secs
  epoch_secs-Launched = record {
    run = λ v l. record { registered = l.registered; holds = l.holds; runs = l.runs };
  }

  write_metadata-Launched :
      (j : ℕ) (m : InstanceMetadata) → Keeps (Launched id h) (write_metadata env j m)
  unfolding write_metadata
  write_metadata-Launched j m =
      search (keeps_rules, create_dir_all-Launched, write-Launched, rename-Launched)

  metadata-Launched : (j : ℕ) → Keeps (Launched id h) (metadata env j)
  metadata-Launched =
      metadata-Keeps env (Launched id h)
        λ v l. record { registered = l.registered; holds = l.holds; runs = l.runs }

  -- The handle is registered, and the watcher of its exit holds its lock; the instance is recorded
  -- as running, with the metadata that the response sums up.
  pub record Watched (r : InstanceActionResponse) (v : World) : Type 0 where
    pub registered : v.registry id ≡ some h
    pub locked : (v.handles h).locked ≡ true
    pub watches : (rest : List Task) × (v.background ≡ exit_watcher id h ∷ rest)
    pub recorded :
        (m : InstanceMetadata) × Recorded id m v × (m.state ≡ running) × (r.summary ≡ summary env m)

  abbrev Both : InstanceMetadata → World → Type 0
  Both m v = Launched id h v × OnDisk id m v

  written-Both :
      (m : InstanceMetadata) → Leaves (Launched id h) (λ a. Both m) (write_metadata env id m)
  written-Both m = record {
    after = λ v l a e.
        ((write_metadata-Launched id m).run v l, (write_metadata-Leaves env id m).after v tt a e);
  }

  after_watch : InstanceMetadata → World → World
  after_watch m v = spawn_exit_watcher id h (record v { cache = Table.insert id m v.cache })

  after_watch-Watched :
      (m : InstanceMetadata) (v : World)
      → m.state ≡ running
      → Both m v
      → Watched (plain_response env m) (after_watch m v)
  unfolding after_watch spawn_exit_watcher plain_response
  after_watch-Watched m v up (l, disk) = record {
    registered = ground (arith, l.registered);
    locked = ground (arith, l.holds, l.runs);
    watches = (v.background, refl);
    recorded = (m, (ground arith, disk), up, refl);
  }

  last-Watched :
      (m : InstanceMetadata)
      → m.state ≡ running
      → Leaves {E = ErrorDetail}
          (Both m)
          Watched
          (do cache_insert id m; modify (spawn_exit_watcher id h); pure (plain_response env m))
  unfolding after_watch ◌>>=◌
  last-Watched m up = record {
    after = λ v both r e.
        subst (λ x. Watched x (after_watch m v)) (ok-injective _ refl e)
          (after_watch-Watched m v up both);
  }

  start_without_adb-Watched : Leaves (Launched id h) Watched (start_without_adb env id h)
  unfolding start_without_adb
  start_without_adb-Watched = Leaves-then _ _ (search (keeps_rules, metadata-Launched)) λ old.
      Leaves-then _ _ (search (keeps_rules, epoch_secs-Launched))
        λ now. Leaves-bind _ _ (Leaves-map_err _ _ (written-Both _)) λ a. last-Watched _ refl

-- What a start that does not wait for adb has done where it succeeds.
module _ (env : Env) (id : InstanceId) (options : StartOptions) where
  abbrev pub Running : InstanceActionResponse → World → Type 0
  Running r v = (h : ℕ) × Watched env id h r v

  started-Running :
      options.skip_adb_wait ≡ true → Leaves (λ v. Unit {0}) Running (start_instance env id options)
  unfolding start_instance
  started-Running skips = Leaves-if _ _ _ (Leaves-fail _) (
      Leaves-then _ _ (Keeps-nothing _) λ active.
        Leaves-if _ _ _ (Leaves-fail _)
          (Leaves-bind _ _ (launch-Launched env id options) λ h. rw skips (waiting h)))
    where
      waiting : (h : ℕ) → Leaves (Launched id h) Running (start_without_adb env id h)
      waiting h = record {
        after = λ v l r e. (h, (start_without_adb-Watched env id h).after v l r e);
      }

  -- Where a start that skips the wait for adb succeeds, a handle is registered for the instance, the
  -- exit watcher is spawned and holds the lock of that handle, and the file and the cache have the
  -- metadata that the response sums up, which say that the instance runs; whatever the host answers.
  pub start_instance-Running :
      (w : World) (r : InstanceActionResponse)
      → options.skip_adb_wait ≡ true
      → (start_instance env id options w).0 ≡ ok r
      → Running r (start_instance env id options w).1
  start_instance-Running w r skips done = (started-Running skips).after w tt r done
