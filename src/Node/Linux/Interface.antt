-- ===== src/Node/Linux/Interface.antt =====
-- NewMounter of internal/node/mounter_linux.go, the mounter that the wrapper's server calls, and the
-- configuration that cmd/wrapper/main.go gives it.
use kruise_agents_nfs_csi.Config.{WrapperConfig}
use kruise_agents_nfs_csi.Node.{NodeConfig}
use kruise_agents_nfs_csi.Node.System.{Kernel, Thread}
use kruise_agents_nfs_csi.Node.Linux
use kruise_agents_nfs_csi.Wrapper.Server.Base.{Mounter}

abbrev pub new_mounter : {D P : Type 0} → Kernel D P → NodeConfig → Mounter (Thread D P)
new_mounter k cfg = record {
  mount = Linux.mount k cfg;
  unmount = Linux.unmount k cfg;
  is_mounted = λ plan t. (Linux.is_mounted k cfg plan t).0;
}

unfoldable pub node_config : WrapperConfig → NodeConfig
node_config cfg = record {
  driver_name = cfg.driver_name;
  staging_root = cfg.staging_root;
  host_proc_root = cfg.host_proc_root;
  enable_mount = cfg.enable_mount;
  unstage_after_mount = cfg.unstage_after_mount;
  create_missing_sub_paths = cfg.create_missing_sub_paths;
  created_sub_path_mode = cfg.created_sub_path_mode;
  timeout = cfg.request_timeout;
}
