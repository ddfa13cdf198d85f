-- ===== src/Node/Namespaces.antt =====
-- internal/node/mounter_linux.go: the calls that run in a container's mount namespace. Locking the
-- thread has no counterpart: the model is of one thread.
pub mod Returned
pub mod Restored
pub mod Stays
use kruise_agents_nfs_csi.Prelude.{ℕ, Bool, true, false, not, List, [], ◌∷◌, if◌then◌else◌}
use kruise_agents_nfs_csi.Go.Text.{Str, codes, trim_prefix}
use kruise_agents_nfs_csi.Go.Search.{path_join}
use kruise_agents_nfs_csi.Go.Decimal.{itoa}
use kruise_agents_nfs_csi.Go.Clean.{slash}
use kruise_agents_nfs_csi.Go.Errors.{Err, Result, ok, err, text, wrap, fail_if}
use kruise_agents_nfs_csi.Go.Exec.{Exec, pure, raise, lift, on_error, ◌>>=◌, ◌>>◌}
use kruise_agents_nfs_csi.Node.MountInfo.{is_mount_point}
use kruise_agents_nfs_csi.Node.System.{
  Kernel, Thread, call, call_with, change, open_fd, close_fd, defer, path_directory, directory,
  file,
}

-- The mountinfo file of a process, its root directory, a path below that, and its mount namespace.
abbrev pub mount_info_path : Str → Str → Str
mount_info_path proc_root pid = path_join (proc_root ∷ pid ∷ codes "mountinfo" ∷ [])

abbrev pub root_path : Str → ℕ → Str
root_path proc_root pid = path_join (proc_root ∷ itoa pid ∷ codes "root" ∷ [])

abbrev pub target_in_container_root : Str → ℕ → Str → Str
target_in_container_root proc_root pid target_path =
    path_join (proc_root ∷ itoa pid ∷ codes "root" ∷ trim_prefix target_path (slash ∷ []) ∷ [])

abbrev pub namespace_path : Str → Str → Str
namespace_path proc_root pid = path_join (proc_root ∷ pid ∷ codes "ns" ∷ codes "mnt" ∷ [])

module _ {D P : Type 0} (k : Kernel D P) where
  -- isMountPoint of a file
  unfoldable pub is_mounted_at : Str → Str → Exec (Thread D P) Bool
  is_mounted_at mount_info target t =
      (is_mount_point (k.scan_file mount_info t.attributes t.disk) target, t)

  unfoldable pub refuse_mounted : Str → Str → Exec (Thread D P) (Unit {0})
  unfolding is_mounted_at
  refuse_mounted mount_info target = do
    mounted ← is_mounted_at mount_info target
    lift (fail_if mounted (text "target path is already a mount point"))

  -- setns
  unfoldable pub enter_namespace : ℕ → Exec (Thread D P) (Unit {0})
  unfolding call_with change
  enter_namespace fd = call_with fd (λ p. change (k.setns p))

  -- `defer setns(...)`, whose error is ignored
  unfoldable pub restore_namespace : ℕ → Thread D P → Thread D P
  restore_namespace fd t = (enter_namespace fd t).1

  -- The part in the target's namespace.
  unfoldable pub entered : ℕ → ℕ → Exec (Thread D P) (Unit {0}) → Exec (Thread D P) (Unit {0})
  unfolding defer
  entered self_ns target_ns body = do
    on_error (wrap "enter target mount namespace") (enter_namespace target_ns)
    defer (restore_namespace self_ns) body

  -- The part with the namespace open that /proc/self/ns/mnt is, the thread-group leader's.
  unfoldable pub open_target :
      Str → ℕ → ℕ → Exec (Thread D P) (Unit {0}) → Exec (Thread D P) (Unit {0})
  unfolding open_fd close_fd
  open_target proc_root pid self_ns body = do
    target_ns ←
        on_error (wrap "open target mount namespace")
          (open_fd k (k.open_file file (namespace_path proc_root (itoa pid))))
    defer (close_fd target_ns) (entered self_ns target_ns body)

  -- What the three operations share: from unshareFS to the deferred setns, then the rest of them.
  unfoldable pub in_mount_namespace :
      Str → ℕ → Exec (Thread D P) (Unit {0}) → Exec (Thread D P) (Unit {0})
  unfolding open_fd close_fd
  in_mount_namespace proc_root pid body = do
    on_error (wrap "unshare filesystem attributes") (call (λ _. k.unshare_fs))
    self_ns ←
        on_error (wrap "open current mount namespace")
          (open_fd k (k.open_file file (namespace_path proc_root (codes "self"))))
    defer (close_fd self_ns) (open_target proc_root pid self_ns body)

  -- What the two ways of mounting begin with: the target is no mount point, and is made.
  unfoldable pub prepare_target : Str → ℕ → Str → Exec (Thread D P) (Unit {0})
  prepare_target proc_root pid target_path = do
    refuse_mounted (mount_info_path proc_root (itoa pid)) target_path
    on_error (wrap "create target path")
        (call (k.mkdir_all (target_in_container_root proc_root pid target_path) 0o755))
    refuse_mounted (mount_info_path proc_root (itoa pid)) target_path

  -- unix.MoveMount
  abbrev pub move_mount : ℕ → ℕ → Exec (Thread D P) (Unit {0})
  move_mount source_fd target_fd =
      call_with source_fd
        (λ source. call_with target_fd (λ target. call (λ _. k.move_mount source target)))

  -- moveMountIntoContainerNamespace
  unfoldable pub move_mount_into_container_namespace :
      Str → ℕ → ℕ → Str → Exec (Thread D P) (Unit {0})
  unfolding open_fd close_fd
  move_mount_into_container_namespace proc_root pid source_fd target_path = do
    prepare_target proc_root pid target_path
    target_fd ← on_error (wrap "open target path") (
        open_fd k (k.open_file path_directory (target_in_container_root proc_root pid target_path)))
    defer (close_fd target_fd) (
        in_mount_namespace proc_root pid
          (on_error (wrap "bind mount pv source") (move_mount source_fd target_fd)))

  -- enterRoot
  unfoldable pub enter_root : ℕ → Exec (Thread D P) (Unit {0})
  enter_root root_fd = do
    on_error (wrap "change directory to root fd") (call_with root_fd (λ p. change (k.fchdir p)))
    on_error (wrap "chroot") (change k.chroot_here)
    on_error (wrap "change directory to /") (change k.chdir_to_root)

  -- restoreRoot: the first error ends it, and is printed
  unfoldable pub restore_root : ℕ → ℕ → Thread D P → Thread D P
  restore_root root_fd cwd_fd t =
      ((do
        call_with root_fd (λ p. change (k.fchdir p))
        change k.chroot_here
        call_with cwd_fd (λ p. change (k.fchdir p)))
        t).1

  -- The unmount, in the target's root.
  unfoldable pub unmount_in_root : ℕ → ℕ → ℕ → Str → Exec (Thread D P) (Unit {0})
  unfolding defer
  unmount_in_root target_root self_root self_cwd target_path = do
    on_error (wrap "enter target root") (enter_root target_root)
    defer (restore_root self_root self_cwd)
        (on_error (wrap "unmount target path") (call (k.unmount target_path)))

  -- unmountInContainerNamespace
  unfoldable pub unmount_in_container_namespace : Str → ℕ → Str → Exec (Thread D P) (Unit {0})
  unfolding open_fd close_fd
  unmount_in_container_namespace proc_root pid target_path = do
    mounted ← is_mounted_at (mount_info_path proc_root (itoa pid)) target_path
    lift (fail_if (not mounted) (text "target path is not a mount point"))
    target_root ←
        on_error (wrap "open target container root")
          (open_fd k (k.open_file directory (root_path proc_root pid)))
    defer (close_fd target_root) (do
      self_root ←
          on_error (wrap "open current root") (open_fd k (k.open_file directory (codes "/")))
      defer (close_fd self_root) (do
        self_cwd ←
            on_error (wrap "open current working directory")
              (open_fd k (k.open_file directory (codes ".")))
        defer (close_fd self_cwd) (
            in_mount_namespace proc_root pid
              (unmount_in_root target_root self_root self_cwd target_path))))

  -- unix.Mount with MS_BIND, whose source may be named by a descriptor
  abbrev pub bind_mount : Str → Str → Exec (Thread D P) (Unit {0})
  bind_mount source target t = call (k.bind_mount source target t.held) t

  -- legacyBindMountIntoContainerNamespace
  unfoldable pub legacy_bind_mount_into_container_namespace :
      Str → ℕ → Str → Str → Exec (Thread D P) (Unit {0})
  legacy_bind_mount_into_container_namespace proc_root pid source_path target_path = do
    prepare_target proc_root pid target_path
    in_mount_namespace proc_root pid (
        on_error (wrap "bind mount pv source with legacy mount API")
          (bind_mount source_path (target_in_container_root proc_root pid target_path)))
