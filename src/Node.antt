-- ===== src/Node.antt =====
-- internal/node: the plan of a mount, the NFS paths, and the Linux mounter.
pub mod NfsPath
pub mod Segments
pub mod MountInfo
pub mod Process
pub mod System
pub mod Tree
pub mod Namespaces
pub mod Staging
pub mod Linux
use kruise_agents_nfs_csi.Prelude.{ℕ, Bool, List}
use kruise_agents_nfs_csi.Go.Text.{Str}
use kruise_agents_nfs_csi.Config.{Duration}

-- Config of internal/node/types.go
pub record NodeConfig : Type 0 where
  pub driver_name : Str
  pub staging_root : Str
  pub host_proc_root : Str
  pub enable_mount : Bool
  pub unstage_after_mount : Bool
  pub create_missing_sub_paths : Bool
  pub created_sub_path_mode : ℕ
  pub timeout : Duration

-- PersistentVolume
pub record PersistentVolume : Type 0 where
  pub name : Str
  pub volume_handle : Str
  pub server : Str
  pub share : Str
  pub sub_dir : Str
  pub mount_options : List Str

-- MountPlan
pub record MountPlan : Type 0 where
  pub pv : PersistentVolume
  pub pod_uid : Str
  pub container_name : Str
  pub container_id : Str
  pub source_sub_path : Str
  pub target_path : Str
