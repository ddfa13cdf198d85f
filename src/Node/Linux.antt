-- ===== src/Node/Linux.antt =====
-- internal/node/mounter_linux.go: linuxMounter. Its locks by staging path are left out: one call runs
-- at a time on a path, and the model is of one call.
pub mod Returned
pub mod Stays
pub mod Back
pub mod Interface
use kruise_agents_nfs_csi.Prelude.{
  ℕ, Bool, true, false, not, ◌||◌, List, [], ◌∷◌, Option, none, some, ◌==◌, if◌then◌else◌,
}
use kruise_agents_nfs_csi.Go.Text.{Str, codes, str_eq}
use kruise_agents_nfs_csi.Go.Search.{path_join}
use kruise_agents_nfs_csi.Go.Decimal.{itoa}
use kruise_agents_nfs_csi.Go.Errors.{
  Err, Result, ok, err, sentinel, mount_disabled, no_system_call, text, wrap, is, fail_if,
}
use kruise_agents_nfs_csi.Go.Exec.{Exec, pure, raise, lift, attempt, on_error, ◌>>=◌, ◌>>◌}
use kruise_agents_nfs_csi.Node.{NodeConfig, MountPlan}
use kruise_agents_nfs_csi.Node.Process.{find_container_pid}
use kruise_agents_nfs_csi.Node.System.{Kernel, Thread, call, call_with, open_fd, close_fd, defer}
use kruise_agents_nfs_csi.Node.Tree.{open_directory_no_follow}
use kruise_agents_nfs_csi.Node.Namespaces.{
  is_mounted_at, mount_info_path, move_mount_into_container_namespace,
  legacy_bind_mount_into_container_namespace, unmount_in_container_namespace,
}
use kruise_agents_nfs_csi.Node.Staging.{self_mount_info, mount_nfs, warn_cleanup_staging_path}

abbrev pub stop : Option Err → Result (Unit {0})
stop none = ok tt
stop (some e) = err e

module _ {D P : Type 0} (k : Kernel D P) where
  -- openTreeMountSource, the description aside
  unfoldable pub open_tree_mount_source : Str → Str → Bool → ℕ → Exec (Thread D P) ℕ
  unfolding open_fd close_fd defer call_with
  open_tree_mount_source stage_path source_sub_path create mode =
      if source_sub_path == []
      then on_error (wrap "clone staged mount") (open_fd k (k.open_tree stage_path))
      else open_directory_no_follow k stage_path source_sub_path create mode >>= λ source_fd.
          defer (close_fd source_fd) (
            on_error (wrap "clone staged source_sub_path")
              (call_with source_fd (λ source. open_fd k (λ _. k.open_tree_at source))))

  -- bindMountWithModernAPI
  unfoldable pub bind_mount_with_modern_api :
      NodeConfig → ℕ → Str → Str → Str → Exec (Thread D P) (Unit {0})
  bind_mount_with_modern_api cfg pid stage_path source_sub_path target_path = do
    source_fd ←
        open_tree_mount_source stage_path source_sub_path cfg.create_missing_sub_paths
          cfg.created_sub_path_mode
    defer (close_fd source_fd)
        (move_mount_into_container_namespace k cfg.host_proc_root pid source_fd target_path)

  -- (legacyMountSource) Path
  abbrev pub legacy_path : ℕ → Str
  legacy_path fd = path_join (codes "/proc/self/fd" ∷ itoa fd ∷ [])

  -- bindMountWithLegacyAPI, with openLegacyMountSource
  unfoldable pub bind_mount_with_legacy_api :
      NodeConfig → ℕ → Str → Str → Str → Exec (Thread D P) (Unit {0})
  bind_mount_with_legacy_api cfg pid stage_path source_sub_path target_path = do
    source_fd ←
        open_directory_no_follow k stage_path source_sub_path cfg.create_missing_sub_paths
          cfg.created_sub_path_mode
    defer (close_fd source_fd) (
        legacy_bind_mount_into_container_namespace k cfg.host_proc_root pid (legacy_path source_fd)
          target_path)

  -- findContainerPID of a plan
  unfoldable pub find_pid_of : NodeConfig → MountPlan → Exec (Thread D P) ℕ
  find_pid_of cfg plan t = (
    find_container_pid (λ path. k.read_dir path t.attributes t.disk)
        (λ path. k.read_file path t.attributes t.disk) cfg.host_proc_root plan.pod_uid
        plan.container_id,
    t,
  )

  -- The older API is the fallback where the kernel does not have the newer one.
  abbrev pub fall_back :
      Exec (Thread D P) (Unit {0}) → Result (Unit {0}) → Exec (Thread D P) (Unit {0})
  fall_back legacy (ok done) = pure tt
  fall_back legacy (err e) = if is no_system_call e then legacy else raise e

  -- The tests that the three operations begin with.
  unfoldable pub admit : NodeConfig → Exec (Thread D P) (Unit {0})
  admit cfg t = (
    (if not cfg.enable_mount then err (sentinel mount_disabled) else stop (k.context_error t.disk)),
    t,
  )

  -- Mount from the staging directory on.
  unfoldable pub mount_staged : NodeConfig → MountPlan → Str → Exec (Thread D P) (Unit {0})
  mount_staged cfg plan stage_path = do
    on_error (wrap "create staging path") (call (k.mkdir_all stage_path 0o750))
    mounted ← is_mounted_at k self_mount_info stage_path
    (if mounted then pure tt else mount_nfs k plan.pv stage_path)
    pid ← find_pid_of cfg plan
    bound ←
        attempt
          (bind_mount_with_modern_api cfg pid stage_path plan.source_sub_path plan.target_path)
    fall_back (bind_mount_with_legacy_api cfg pid stage_path plan.source_sub_path plan.target_path)
        bound

  -- Mount
  unfoldable pub mount : NodeConfig → MountPlan → Exec (Thread D P) (Unit {0})
  mount cfg plan = do
    admit cfg
    lift (
        fail_if (plan.pv.server == [] || plan.pv.share == [])
          (text "pv is missing nfs server or share attributes"))
    lift (fail_if (plan.container_id == []) (text "container has empty container id"))
    (if cfg.unstage_after_mount
        then defer (warn_cleanup_staging_path k (path_join (cfg.staging_root ∷ plan.pv.name ∷ [])))
            (mount_staged cfg plan (path_join (cfg.staging_root ∷ plan.pv.name ∷ [])))
        else mount_staged cfg plan (path_join (cfg.staging_root ∷ plan.pv.name ∷ [])))

  -- Unmount
  unfoldable pub unmount : NodeConfig → MountPlan → Exec (Thread D P) (Unit {0})
  unmount cfg plan = do
    admit cfg
    lift (fail_if (plan.container_id == []) (text "container has empty container id"))
    pid ← find_pid_of cfg plan
    unmount_in_container_namespace k cfg.host_proc_root pid plan.target_path

  -- IsMounted
  unfoldable pub is_mounted : NodeConfig → MountPlan → Exec (Thread D P) Bool
  is_mounted cfg plan = do
    admit cfg
    lift (fail_if (plan.container_id == []) (text "container has empty container id"))
    pid ← find_pid_of cfg plan
    is_mounted_at k (mount_info_path cfg.host_proc_root (itoa pid)) plan.target_path
