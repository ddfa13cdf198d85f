-- ===== src/Node/Linux/Stays.antt =====
-- The two ways of mounting bring the thread back from the mount namespace of the target.
use kruise_agents_nfs_csi.Prelude.{ℕ, Bool, true, false, [], ◌==◌, if◌then◌else◌}
use kruise_agents_nfs_csi.Go.Text.{Str, str_eq}
use kruise_agents_nfs_csi.Go.Errors.{wrap}
use kruise_agents_nfs_csi.Go.Exec.{Exec, on_error, ◌>>=◌}
use kruise_agents_nfs_csi.Node.{NodeConfig}
use kruise_agents_nfs_csi.Node.System.{Kernel, Thread, call_with, open_fd, close_fd, defer}
use kruise_agents_nfs_csi.Node.System.Held.{call_with-Keeps}
use kruise_agents_nfs_csi.Node.System.Stays.{
  attributes, open_fd-attributes, Stays, Keeps-Stays, bind-Stays, close-Stays,
}
use kruise_agents_nfs_csi.Node.Tree.{open_directory_no_follow}
use kruise_agents_nfs_csi.Node.Tree.Stays.{open_directory_no_follow-attributes}
use kruise_agents_nfs_csi.Node.Namespaces.{
  move_mount_into_container_namespace, legacy_bind_mount_into_container_namespace,
}
use kruise_agents_nfs_csi.Node.Namespaces.Restored.{Documented, Returned}
use kruise_agents_nfs_csi.Node.Namespaces.Stays.{
  move_mount_into_container_namespace-Stays, legacy_bind_mount_into_container_namespace-Stays,
}
use kruise_agents_nfs_csi.Node.Linux.{
  open_tree_mount_source, bind_mount_with_modern_api, bind_mount_with_legacy_api, legacy_path,
}

module _ {D P : Type 0} (k : Kernel D P) (cfg : NodeConfig) (laws : Documented k) (home : P) where
  abbrev At : P → Type 0
  At = Returned k cfg.host_proc_root home

  pub open_tree_mount_source-Stays :
      (stage_path source_sub_path : Str) (create : Bool) (mode : ℕ)
      → Stays At (open_tree_mount_source k stage_path source_sub_path create mode)
  unfolding open_tree_mount_source
  open_tree_mount_source-Stays stage_path source_sub_path create mode =
      by_path (source_sub_path == [])
    where
      tree_at : ℕ → Exec (Thread D P) ℕ
      tree_at fd =
          on_error (wrap "clone staged source_sub_path")
            (call_with fd (λ source. open_fd k (λ _. k.open_tree_at source)))

      whole : Exec (Thread D P) ℕ
      whole = on_error (wrap "clone staged mount") (open_fd k (k.open_tree stage_path))

      opened : Exec (Thread D P) ℕ
      opened = open_directory_no_follow k stage_path source_sub_path create mode

      by_path :
          (b : Bool)
          → Stays At (if b then whole else (opened >>= λ fd. defer (close_fd fd) (tree_at fd)))
      by_path true = Keeps-Stays At whole (open_fd-attributes k (k.open_tree stage_path))
      by_path false =
          bind-Stays At opened (λ fd. defer (close_fd fd) (tree_at fd))
            (Keeps-Stays At opened
              (open_directory_no_follow-attributes k stage_path source_sub_path create mode))
            (λ fd. close-Stays At fd (tree_at fd) (
              Keeps-Stays At (tree_at fd) (
                call_with-Keeps attributes fd (λ source. open_fd k (λ _. k.open_tree_at source))
                  (λ source. open_fd-attributes k (λ _. k.open_tree_at source)))))

  pub bind_mount_with_modern_api-Stays :
      (pid : ℕ) (stage_path source_sub_path target_path : Str)
      → Stays At (bind_mount_with_modern_api k cfg pid stage_path source_sub_path target_path)
  unfolding bind_mount_with_modern_api
  bind_mount_with_modern_api-Stays pid stage_path source_sub_path target_path =
      bind-Stays At
        (open_tree_mount_source k stage_path source_sub_path cfg.create_missing_sub_paths
          cfg.created_sub_path_mode)
        (λ fd. defer (close_fd fd) (moved fd))
        (open_tree_mount_source-Stays stage_path source_sub_path cfg.create_missing_sub_paths
          cfg.created_sub_path_mode)
        (λ fd. close-Stays At fd (moved fd) (
          move_mount_into_container_namespace-Stays k cfg.host_proc_root laws home pid fd
            target_path))
    where
      moved : ℕ → Exec (Thread D P) (Unit {0})
      moved fd = move_mount_into_container_namespace k cfg.host_proc_root pid fd target_path

  pub bind_mount_with_legacy_api-Stays :
      (pid : ℕ) (stage_path source_sub_path target_path : Str)
      → Stays At (bind_mount_with_legacy_api k cfg pid stage_path source_sub_path target_path)
  unfolding bind_mount_with_legacy_api
  bind_mount_with_legacy_api-Stays pid stage_path source_sub_path target_path =
      bind-Stays At opened (λ fd. defer (close_fd fd) (bound fd))
        (Keeps-Stays At opened (
          open_directory_no_follow-attributes k stage_path source_sub_path
            cfg.create_missing_sub_paths cfg.created_sub_path_mode))
        (λ fd. close-Stays At fd (bound fd) (
          legacy_bind_mount_into_container_namespace-Stays k cfg.host_proc_root laws home pid
            (legacy_path k fd) target_path))
    where
      opened : Exec (Thread D P) ℕ
      opened =
          open_directory_no_follow k stage_path source_sub_path cfg.create_missing_sub_paths
            cfg.created_sub_path_mode

      bound : ℕ → Exec (Thread D P) (Unit {0})
      bound fd =
          legacy_bind_mount_into_container_namespace k cfg.host_proc_root pid (legacy_path k fd)
            target_path
