-- ===== src/Config.antt =====
-- cuttlefish/cfctl/src/daemon/config.rs: the daemon's settings. Durations are in seconds. And
-- cuttlefish/cfctl/src/bin/cfctl-daemon.rs: the settings from the command line, which clap parses.
use fundroid.Prelude.{ℕ, ◌≡◌, refl, Bool, true, List, [], ◌∷◌}
use fundroid.Text.{Text, codes}

pub record CfctlDaemonConfig : Type 0 where
  pub socket_path : Text
  pub state_dir : Text
  pub etc_instances_dir : Text
  pub default_boot_image : Text
  pub default_init_boot_image : Text
  pub start_timeout : ℕ
  pub adb_wait_timeout : ℕ
  pub journal_lines : ℕ
  pub adb_host : Text
  pub base_adb_port : ℕ
  pub cuttlefish_fhs : Text
  pub cuttlefish_instances_dir : Text
  pub cuttlefish_assembly_dir : Text
  pub cuttlefish_system_image_dir : Text
  pub disable_host_gpu : Bool
  pub guest_user : Text
  pub guest_primary_group : Text
  pub guest_capabilities : List Text

unfoldable pub default : CfctlDaemonConfig
default = record {
  socket_path = codes "/run/cfctl.sock";
  state_dir = codes "/var/lib/cfctl";
  etc_instances_dir = codes "/etc/cuttlefish/instances";
  default_boot_image = codes "/var/lib/cuttlefish/images/boot.img";
  default_init_boot_image = codes "/var/lib/cuttlefish/images/init_boot.img";
  start_timeout = 120;
  adb_wait_timeout = 90;
  journal_lines = 200;
  adb_host = codes "127.0.0.1";
  base_adb_port = 6520;
  cuttlefish_fhs = codes "/run/current-system/sw/bin/cuttlefish-fhs";
  cuttlefish_instances_dir = codes "/var/lib/cuttlefish/instances";
  cuttlefish_assembly_dir = codes "/var/lib/cuttlefish/assembly";
  cuttlefish_system_image_dir = codes "/var/lib/cuttlefish/images";
  disable_host_gpu = true;
  guest_user = codes "justin";
  guest_primary_group = codes "cvdnetwork";
  guest_capabilities = codes "net_admin" ∷ [];
}

pub record Args : Type 0 where
  pub socket : Text
  pub state_dir : Text
  pub etc_instances_dir : Text
  pub default_boot_image : Text
  pub default_init_boot_image : Text
  pub start_timeout_secs : ℕ
  pub adb_timeout_secs : ℕ
  pub journal_lines : ℕ
  pub adb_host : Text
  pub base_adb_port : ℕ
  pub cuttlefish_fhs : Text
  pub cuttlefish_instances_dir : Text
  pub cuttlefish_assembly_dir : Text
  pub cuttlefish_system_image_dir : Text
  pub disable_host_gpu : Bool
  pub guest_user : Text
  pub guest_primary_group : Text
  pub guest_capabilities : List Text

-- What clap takes where no argument and no variable of the environment is given.
default_args : Args
default_args = record {
  socket = codes "/run/cfctl.sock";
  state_dir = codes "/var/lib/cfctl";
  etc_instances_dir = codes "/etc/cuttlefish/instances";
  default_boot_image = codes "/var/lib/cuttlefish/images/boot.img";
  default_init_boot_image = codes "/var/lib/cuttlefish/images/init_boot.img";
  start_timeout_secs = 120;
  adb_timeout_secs = 90;
  journal_lines = 200;
  adb_host = codes "127.0.0.1";
  base_adb_port = 6520;
  cuttlefish_fhs = codes "/run/current-system/sw/bin/cuttlefish-fhs";
  cuttlefish_instances_dir = codes "/var/lib/cuttlefish/instances";
  cuttlefish_assembly_dir = codes "/var/lib/cuttlefish/assembly";
  cuttlefish_system_image_dir = codes "/var/lib/cuttlefish/images";
  disable_host_gpu = true;
  guest_user = codes "justin";
  guest_primary_group = codes "cvdnetwork";
  guest_capabilities = codes "net_admin" ∷ [];
}

-- The start of `main` of the daemon.
unfoldable pub config_of : Args → CfctlDaemonConfig
config_of args = record {
  socket_path = args.socket;
  state_dir = args.state_dir;
  etc_instances_dir = args.etc_instances_dir;
  default_boot_image = args.default_boot_image;
  default_init_boot_image = args.default_init_boot_image;
  start_timeout = args.start_timeout_secs;
  adb_wait_timeout = args.adb_timeout_secs;
  journal_lines = args.journal_lines;
  adb_host = args.adb_host;
  base_adb_port = args.base_adb_port;
  cuttlefish_fhs = args.cuttlefish_fhs;
  cuttlefish_instances_dir = args.cuttlefish_instances_dir;
  cuttlefish_assembly_dir = args.cuttlefish_assembly_dir;
  cuttlefish_system_image_dir = args.cuttlefish_system_image_dir;
  disable_host_gpu = args.disable_host_gpu;
  guest_user = args.guest_user;
  guest_primary_group = args.guest_primary_group;
  guest_capabilities = args.guest_capabilities;
}

-- The two places that name the defaults agree.
config_of-default_args : config_of default_args ≡ default
unfolding config_of default_args default
config_of-default_args = refl
