-- ===== src/Node/Namespaces/Stays.antt =====
-- The operations in a container's mount namespace bring the thread back from it.
use kruise_agents_nfs_csi.Prelude.{ℕ, refl, Bool, not}
use kruise_agents_nfs_csi.Go.Text.{Str, codes}
use kruise_agents_nfs_csi.Go.Decimal.{itoa}
use kruise_agents_nfs_csi.Go.Errors.{Err, text, wrap, fail_if}
use kruise_agents_nfs_csi.Go.Exec.{Exec, lift, on_error, ◌>>=◌}
use kruise_agents_nfs_csi.Node.System.{
  Kernel, Thread, Attributes, call, open_fd, close_fd, defer, path_directory, directory,
}
use kruise_agents_nfs_csi.Node.System.Held.{Keeps, held, bind-Keeps, call-attributes, call-held}
use kruise_agents_nfs_csi.Node.System.Stays.{
  attributes, open_fd-attributes, Stays, Keeps-Stays, bind-Stays, close-Stays,
}
use kruise_agents_nfs_csi.Node.Namespaces.{
  mount_info_path, root_path, target_in_container_root, is_mounted_at, refuse_mounted,
  in_mount_namespace, prepare_target, move_mount, bind_mount, move_mount_into_container_namespace,
  unmount_in_root, unmount_in_container_namespace, legacy_bind_mount_into_container_namespace,
}
use kruise_agents_nfs_csi.Node.Namespaces.Returned.{move_mount-held, unmount_in_root-held}
use kruise_agents_nfs_csi.Node.Namespaces.Restored.{
  Documented, Returned, in_mount_namespace-namespace,
}

module _ {D P : Type 0} (k : Kernel D P) (proc_root : Str) (laws : Documented k) (home : P) where
  abbrev At : P → Type 0
  At = Returned k proc_root home

  in_mount_namespace-Stays :
      (pid : ℕ) (body : Exec (Thread D P) (Unit {0}))
      → Keeps held body
      → Stays At (in_mount_namespace k proc_root pid body)
  in_mount_namespace-Stays pid body keeps t e =
      in_mount_namespace-namespace k proc_root laws home pid body t keeps e

  -- A descriptor is opened for the rest of the call.
  opened-Stays :
      (note : Err → Err) (f : Attributes P → Exec D P) (body : ℕ → Exec (Thread D P) (Unit {0}))
      → ((fd : ℕ) → Stays At (body fd))
      → Stays At (on_error note (open_fd k f) >>= λ fd. defer (close_fd fd) (body fd))
  opened-Stays note f body h =
      bind-Stays At (on_error note (open_fd k f)) (λ fd. defer (close_fd fd) (body fd))
        (Keeps-Stays At (on_error note (open_fd k f)) (open_fd-attributes k f))
        (λ fd. close-Stays At fd (body fd) (h fd))

  refuse_mounted-attributes :
      (mount_info target : Str) → Keeps attributes (refuse_mounted k mount_info target)
  unfolding refuse_mounted is_mounted_at
  refuse_mounted-attributes mount_info target =
      bind-Keeps attributes (is_mounted_at k mount_info target)
        (λ mounted. lift (fail_if mounted (text "target path is already a mount point")))
        (λ t. refl) (λ mounted t. refl)

  prepare_target-attributes :
      (pid : ℕ) (target_path : Str) → Keeps attributes (prepare_target k proc_root pid target_path)
  unfolding prepare_target
  prepare_target-attributes pid target_path =
      bind-Keeps attributes refuse (λ _. make >>= λ _. refuse)
        (refuse_mounted-attributes (mount_info_path proc_root (itoa pid)) target_path)
        (λ _.
          bind-Keeps attributes make (λ _. refuse)
            (call-attributes
              (k.mkdir_all (target_in_container_root proc_root pid target_path) 0o755))
            (λ _. refuse_mounted-attributes (mount_info_path proc_root (itoa pid)) target_path))
    where
      refuse : Exec (Thread D P) (Unit {0})
      refuse = refuse_mounted k (mount_info_path proc_root (itoa pid)) target_path

      make : Exec (Thread D P) (Unit {0})
      make =
          on_error (wrap "create target path")
            (call (k.mkdir_all (target_in_container_root proc_root pid target_path) 0o755))

  prepared-Stays :
      (pid : ℕ) (target_path : Str) (rest : Exec (Thread D P) (Unit {0}))
      → Stays At rest
      → Stays At (prepare_target k proc_root pid target_path >>= λ _. rest)
  prepared-Stays pid target_path rest h =
      bind-Stays At (prepare_target k proc_root pid target_path) (λ _. rest)
        (Keeps-Stays At (prepare_target k proc_root pid target_path)
          (prepare_target-attributes pid target_path))
        (λ _. h)

  pub move_mount_into_container_namespace-Stays :
      (pid source_fd : ℕ) (target_path : Str)
      → Stays At (move_mount_into_container_namespace k proc_root pid source_fd target_path)
  unfolding move_mount_into_container_namespace
  move_mount_into_container_namespace-Stays pid source_fd target_path =
      prepared-Stays pid target_path (opened >>= λ fd. defer (close_fd fd) (body fd)) (
        opened-Stays (wrap "open target path")
          (k.open_file path_directory (target_in_container_root proc_root pid target_path)) body
          (λ fd.
            in_mount_namespace-Stays pid
              (on_error (wrap "bind mount pv source") (move_mount k source_fd fd))
              (move_mount-held k source_fd fd)))
    where
      opened : Exec (Thread D P) ℕ
      opened = on_error (wrap "open target path") (
          open_fd k
            (k.open_file path_directory (target_in_container_root proc_root pid target_path)))

      body : ℕ → Exec (Thread D P) (Unit {0})
      body fd =
          in_mount_namespace k proc_root pid
            (on_error (wrap "bind mount pv source") (move_mount k source_fd fd))

  pub legacy_bind_mount_into_container_namespace-Stays :
      (pid : ℕ) (source_path target_path : Str)
      → Stays At
          (legacy_bind_mount_into_container_namespace k proc_root pid source_path target_path)
  unfolding legacy_bind_mount_into_container_namespace
  legacy_bind_mount_into_container_namespace-Stays pid source_path target_path =
      prepared-Stays pid target_path (in_mount_namespace k proc_root pid bound) (
        in_mount_namespace-Stays pid bound (λ t.
          call-held
            (k.bind_mount source_path (target_in_container_root proc_root pid target_path) t.held)
            t))
    where
      bound : Exec (Thread D P) (Unit {0})
      bound =
          on_error (wrap "bind mount pv source with legacy mount API")
            (bind_mount k source_path (target_in_container_root proc_root pid target_path))

  pub unmount_in_container_namespace-Stays :
      (pid : ℕ) (target_path : Str)
      → Stays At (unmount_in_container_namespace k proc_root pid target_path)
  unfolding unmount_in_container_namespace is_mounted_at
  unmount_in_container_namespace-Stays pid target_path =
      bind-Stays At (is_mounted_at k (mount_info_path proc_root (itoa pid)) target_path)
        (λ mounted. check mounted >>= λ _. rest) (λ t e. e)
        (λ mounted.
          bind-Stays At (check mounted) (λ _. rest) (λ t e. e)
            (λ _.
              opened-Stays (wrap "open target container root")
                (k.open_file directory (root_path proc_root pid)) in_root
                (λ target_root.
                  opened-Stays (wrap "open current root") (k.open_file directory (codes "/"))
                    (in_self target_root)
                    (λ self_root.
                      opened-Stays (wrap "open current working directory")
                        (k.open_file directory (codes ".")) (in_cwd target_root self_root)
                        (λ self_cwd.
                          in_mount_namespace-Stays pid
                            (unmount_in_root k target_root self_root self_cwd target_path)
                            (unmount_in_root-held k target_root self_root self_cwd target_path))))))
    where
      check : Bool → Exec (Thread D P) (Unit {0})
      check mounted = lift (fail_if (not mounted) (text "target path is not a mount point"))

      open_at_path :
          (Err → Err) → Str → (ℕ → Exec (Thread D P) (Unit {0})) → Exec (Thread D P) (Unit {0})
      open_at_path note path body = on_error note (open_fd k (k.open_file directory path)) >>= λ fd.
          defer (close_fd fd) (body fd)

      in_cwd : ℕ → ℕ → ℕ → Exec (Thread D P) (Unit {0})
      in_cwd target_root self_root self_cwd =
          in_mount_namespace k proc_root pid
            (unmount_in_root k target_root self_root self_cwd target_path)

      in_self : ℕ → ℕ → Exec (Thread D P) (Unit {0})
      in_self target_root self_root =
          open_at_path (wrap "open current working directory") (codes ".")
            (in_cwd target_root self_root)

      in_root : ℕ → Exec (Thread D P) (Unit {0})
      in_root target_root =
          open_at_path (wrap "open current root") (codes "/") (in_self target_root)

      rest : Exec (Thread D P) (Unit {0})
      rest = open_at_path (wrap "open target container root") (root_path proc_root pid) in_root
