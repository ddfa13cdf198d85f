-- ===== src/Config.antt =====
-- internal/config/config.go
pub mod Modes
pub mod Load
pub mod Flags
pub mod Checked
use kruise_agents_nfs_csi.Prelude.{ℕ, Bool}
use kruise_agents_nfs_csi.Go.Text.{Str}

-- time.Duration: nanoseconds, and those of a negative one
pub data Duration : Type 0 where
  nanoseconds minus_nanoseconds : ℕ → Duration

-- WrapperConfig; file modes are Go's os.FileMode bits
pub record WrapperConfig : Type 0 where
  pub driver_name : Str
  pub socket_path : Str
  pub socket_mode : ℕ
  pub token_audience : Str
  pub kube_token_file : Str
  pub kube_ca_file : Str
  pub staging_root : Str
  pub mount_state_dir : Str
  pub node_name : Str
  pub host_proc_root : Str
  pub request_timeout : Duration
  pub enable_mount : Bool
  pub unstage_after_mount : Bool
  pub create_missing_sub_paths : Bool
  pub created_sub_path_mode : ℕ
  pub export_root_key_file : Str

-- MounterConfig
pub record MounterConfig : Type 0 where
  pub driver_name : Str
  pub socket_path : Str
  pub token_file : Str
  pub token_audience : Str
  pub namespace_file : Str
  pub pod_name_file : Str
  pub pod_uid_file : Str
  pub http_timeout : Duration
  pub export_root_key_file : Str
