-- ===== src/Manager/Launch.antt =====
-- cuttlefish/cfctl/src/daemon/manager.rs: the directories, the log and the process of a guest.
pub mod Untouched
pub mod Finishes
use fundroid.Prelude.{
  ℕ, ◌++◌, Bool, not, ◌||◌, Option, none, some, List, [], ◌∷◌, map, if◌then◌else◌, is_empty,
}
use fundroid.Exec.{pure, fail, map_err, ◌>>=◌, ◌>>◌}
use fundroid.Text.{Text, trim, starts_with}
use fundroid.Text.Numbers.{show}
use fundroid.Protocol.{plain, formatted, quoting, os_error, context, InstanceId}
use fundroid.Files.{
  root, run_log, instance_dir, assembly_dir, text, Slot, PathBuf, external, InstanceMetadata,
}
use fundroid.Host.{Env, Action, GuestCommand, tick, attempt_call}
use fundroid.Host.Fs
use fundroid.Host.Os.{run}
use fundroid.Guest.{success}
use fundroid.Manager.Cleanup.{lit, trash_then_purge_async}
use fundroid.Manager.Logs.{slot_path, display, path_present}

-- An existing directory goes to the trash.
clear_dir : Env → Slot → InstanceId → Action (Unit {0})
clear_dir env s id = do
  present ← Fs.exists env s id
  if present then trash_then_purge_async env s id else pure tt

unfoldable pub prepare_host_directories : Env → InstanceId → Action (Unit {0})
unfolding clear_dir
prepare_host_directories env id = do
  map_err (context (plain "creating instances root")) (attempt_call env)
  map_err (context (plain "creating assembly root")) (attempt_call env)
  clear_dir env instance_dir id
  clear_dir env assembly_dir id
  map_err (context (formatted "creating instance dir {}" (id ∷ [])))
      (Fs.create_dir_all env instance_dir id)
  map_err (context (formatted "creating assembly dir {}" (id ∷ [])))
      (Fs.create_dir_all env assembly_dir id)

abbrev kvmvapic : PathBuf
kvmvapic = external (lit "/var/lib/cuttlefish/usr/share/qemu/x86_64-linux-gnu/kvmvapic.bin")

-- A failing `cat` is only logged.
unfoldable pub ensure_qemu_datadir : Env → Action (Unit {0})
ensure_qemu_datadir env = do
  map_err (context (plain "creating qemu datadir")) (attempt_call env)
  present ← path_present env kvmvapic
  if present then pure tt else do
    out ← map_err (context (plain "ensure_qemu_datadir: reading kvmvapic.bin")) (
        run env (record {
          program = env.cuttlefish_fhs;
          args = lit "--" ∷ lit "cat" ∷ lit "/usr/share/qemu/kvmvapic.bin" ∷ [];
        }))
    if not (success out.status) then pure tt else do
      map_err (context (plain "ensure_qemu_datadir: writing")) (attempt_call env)
      map_err (context (plain "ensure_qemu_datadir: setting permissions")) (attempt_call env)

-- The log is created, or emptied.
unfoldable pub prepare_run_log : Env → InstanceId → Action (Unit {0})
prepare_run_log env id = do
  Fs.create_dir_all env root id
  map_err (context (formatted "opening run log {}" (id ∷ []))) (Fs.write env run_log id (text []))

-- A capability without a sign gets a `+`; blank ones are left out.
unfoldable pub normalize_caps : List Text → List Text
normalize_caps [] = []
normalize_caps (c ∷ cs) =
    let rest = normalize_caps cs in
    let t = trim c in
    if is_empty t
    then rest
    else if starts_with t (b'+' ∷ []) || starts_with t (b'-' ∷ [])
    then t ∷ rest
    else (b'+' ∷ t) ∷ rest

-- `caps.join(",")`.
unfoldable pub join_caps : List Text → Text
join_caps [] = []
join_caps (c ∷ []) = c
join_caps (c ∷ d ∷ cs) = c ++ (b',' ∷ join_caps (d ∷ cs))

unfoldable pub preserve_vars : List Text
preserve_vars =
    lit "CUTTLEFISH_INSTANCE"
    ∷ lit "CUTTLEFISH_INSTANCE_NUM"
    ∷ lit "CUTTLEFISH_ADB_TCP_PORT"
    ∷ lit "CUTTLEFISH_DISABLE_HOST_GPU"
    ∷ lit "GFXSTREAM_DISABLE_GRAPHICS_DETECTOR"
    ∷ lit "GFXSTREAM_HEADLESS"
    ∷ []

unfoldable pub caps_args : List Text → List Text
caps_args [] = []
caps_args (c ∷ cs) = lit "setpriv" ∷ lit "--ambient-caps" ∷ join_caps (c ∷ cs) ∷ lit "--" ∷ []

unfoldable pub wrapper_args : Env → Option Text → List Text
wrapper_args env (some t) = lit "cfenv" ∷ lit "-t" ∷ t ∷ lit "--" ∷ []
wrapper_args env none = env.cuttlefish_fhs ∷ lit "--" ∷ []

abbrev truth : Bool → Text
truth b = if b then lit "true" else lit "false"

unfoldable pub launch_args : Env → InstanceId → Bool → List Text
launch_args env id webrtc =
    lit "launch_cvd"
    ∷ (lit "--system_image_dir=" ++ env.cuttlefish_system_image_dir)
    ∷ (lit "--instance_dir=" ++ slot_path env instance_dir id)
    ∷ (lit "--assembly_dir=" ++ slot_path env assembly_dir id)
    ∷ lit "--vm_manager=qemu_cli"
    ∷ lit "--enable_wifi=false"
    ∷ lit "--enable_host_bluetooth=false"
    ∷ lit "--enable_modem_simulator=false"
    ∷ (lit "--start_webrtc=" ++ truth webrtc)
    ∷ (lit "--start_webrtc_sig_server=" ++ truth webrtc)
    ∷ lit "--report_anonymous_usage_stats=n"
    ∷ lit "--daemon=false"
    ∷ lit "--console=true"
    ∷ lit "--extra_kernel_cmdline=console=ttyS0,115200"
    ∷ lit "--verbosity=DEBUG"
    ∷ lit "--resume=false"
    ∷ []

abbrev image_arg : Bool → Text → Text → List Text
image_arg present flag path = if present then (flag ++ path) ∷ [] else []

abbrev gpu_variable : Bool → List (Text × Text)
gpu_variable disabled = if disabled then (lit "CUTTLEFISH_DISABLE_HOST_GPU", lit "1") ∷ [] else []

-- The command line; the two flags say whether the images are there.
unfoldable pub guest_command :
    Env → InstanceId → InstanceMetadata → Bool → Option Text → Bool → Bool → GuestCommand
guest_command env id m webrtc track boot_present init_present = record {
  command = record {
    program = lit "sudo";
    args =
        (lit "-u" ∷ env.guest_user ∷ lit "-g" ∷ env.guest_primary_group ∷ [])
        ++ (map (λ var. lit "--preserve-env=" ++ var) preserve_vars
            ++ (lit "--" ∷ [])
            ++ (caps_args (normalize_caps env.guest_capabilities)
                ++ (wrapper_args env track
                    ++ (launch_args env id webrtc
                        ++ (image_arg boot_present (lit "--boot_image=") (display env m.boot_image)
                            ++ image_arg init_present (lit "--init_boot_image=")
                                (display env m.init_boot_image))))));
  };
  variables =
      gpu_variable env.disable_host_gpu
      ++ ((lit "GFXSTREAM_DISABLE_GRAPHICS_DETECTOR", lit "1")
          ∷ (lit "GFXSTREAM_HEADLESS", lit "1")
          ∷ (lit "CUTTLEFISH_INSTANCE", show id)
          ∷ (lit "CUTTLEFISH_INSTANCE_NUM", show id)
          ∷ (lit "CUTTLEFISH_ADB_TCP_PORT", show m.adb_port)
          ∷ []);
  current_dir = some env.cuttlefish_instances_dir;
}

resolved : Option ℕ → Text → Action ℕ
resolved none name = fail (quoting "'{}' not found" (name ∷ []))
resolved (some n) name = pure n

started : Option ℕ → InstanceId → ℕ → Action ℕ
started none id n = fail (context (formatted "spawning cuttlefish guest {}" (id ∷ [])) (os_error n))
started (some pid) id n = pure pid

-- Returns the pid of the child.
unfoldable pub spawn_guest_process :
    Env → InstanceId → InstanceMetadata → Bool → Option Text → Action ℕ
unfolding resolved started
spawn_guest_process env id m webrtc track = do
  map_err (context (plain "cloning run log file for stderr")) (attempt_call env)
  resolved (env.uid env.guest_user) env.guest_user
  resolved (env.gid env.guest_primary_group) env.guest_primary_group
  boot_present ← path_present env m.boot_image
  init_present ← path_present env m.init_boot_image
  λ w.
      started
        (env.spawn_guest w.calls (guest_command env id m webrtc track boot_present init_present)) id
        w.calls (tick env w)
