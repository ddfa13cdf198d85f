-- ===== src/Node/Namespaces/Returned.antt =====
-- The thread behind a call in a container's mount namespace: the descriptors it holds.
use kruise_agents_nfs_csi.Prelude.{ℕ, ◌≡◌, refl, ◌∙◌, not}
use kruise_agents_nfs_csi.Go.Text.{Str, codes}
use kruise_agents_nfs_csi.Go.Decimal.{itoa}
use kruise_agents_nfs_csi.Go.Errors.{text, wrap, fail_if}
use kruise_agents_nfs_csi.Go.Exec.{Exec, lift, on_error}
use kruise_agents_nfs_csi.Node.System.{
  Kernel, Thread, call, call_with, change, defer, path_directory, directory, file,
}
use kruise_agents_nfs_csi.Node.System.Held.{
  Keeps, held, bind-Keeps, call-held, call_with-Keeps, change-held, opened-held,
}
use kruise_agents_nfs_csi.Node.Namespaces.{
  mount_info_path, root_path, target_in_container_root, namespace_path, is_mounted_at,
  refuse_mounted, enter_namespace, restore_namespace, entered, open_target, in_mount_namespace,
  prepare_target, move_mount, bind_mount, move_mount_into_container_namespace, enter_root,
  restore_root, unmount_in_root, unmount_in_container_namespace,
  legacy_bind_mount_into_container_namespace,
}

module _ {D P : Type 0} (k : Kernel D P) where
  refuse_mounted-held : (mount_info target : Str) → Keeps held (refuse_mounted k mount_info target)
  unfolding refuse_mounted is_mounted_at
  refuse_mounted-held mount_info target =
      bind-Keeps held (is_mounted_at k mount_info target)
        (λ mounted. lift (fail_if mounted (text "target path is already a mount point")))
        (λ t. refl) (λ mounted t. refl)

  enter_namespace-held : (fd : ℕ) → Keeps held (enter_namespace k fd)
  unfolding enter_namespace
  enter_namespace-held fd =
      call_with-Keeps held fd (λ p. change (k.setns p)) (λ p. change-held (k.setns p))

  entered-held :
      (self_ns target_ns : ℕ) (body : Exec (Thread D P) (Unit {0}))
      → Keeps held body
      → Keeps held (entered k self_ns target_ns body)
  unfolding entered defer restore_namespace
  entered-held self_ns target_ns body h =
      bind-Keeps held (on_error (wrap "enter target mount namespace") (enter_namespace k target_ns))
        (λ _. defer (restore_namespace k self_ns) body) (enter_namespace-held target_ns)
        (λ _ t. enter_namespace-held self_ns (body t).1 ∙ h t)

  pub in_mount_namespace-held :
      (proc_root : Str) (pid : ℕ) (body : Exec (Thread D P) (Unit {0}))
      → Keeps held body
      → Keeps held (in_mount_namespace k proc_root pid body)
  unfolding in_mount_namespace open_target
  in_mount_namespace-held proc_root pid body h =
      bind-Keeps held (on_error (wrap "unshare filesystem attributes") (call (λ _. k.unshare_fs))) _
        (call-held (λ _. k.unshare_fs))
        (λ _.
          opened-held k (wrap "open current mount namespace")
            (k.open_file file (namespace_path proc_root (codes "self"))) _
            (λ self_ns.
              opened-held k (wrap "open target mount namespace")
                (k.open_file file (namespace_path proc_root (itoa pid))) _
                (λ target_ns. entered-held self_ns target_ns body h)))

  prepare_target-held :
      (proc_root : Str) (pid : ℕ) (target_path : Str)
      → Keeps held (prepare_target k proc_root pid target_path)
  unfolding prepare_target
  prepare_target-held proc_root pid target_path =
      bind-Keeps held (refuse_mounted k (mount_info_path proc_root (itoa pid)) target_path) _
        (refuse_mounted-held (mount_info_path proc_root (itoa pid)) target_path)
        (λ _.
          bind-Keeps held
            (on_error (wrap "create target path")
              (call (k.mkdir_all (target_in_container_root proc_root pid target_path) 0o755)))
            _ (call-held (k.mkdir_all (target_in_container_root proc_root pid target_path) 0o755))
            (λ _. refuse_mounted-held (mount_info_path proc_root (itoa pid)) target_path))

  pub move_mount-held : (source_fd target_fd : ℕ) → Keeps held (move_mount k source_fd target_fd)
  move_mount-held source_fd target_fd = call_with-Keeps held source_fd _ (λ source.
      call_with-Keeps held target_fd (λ target. call (λ _. k.move_mount source target))
        (λ target. call-held (λ _. k.move_mount source target)))

  pub move_mount_into_container_namespace-held :
      (proc_root : Str) (pid source_fd : ℕ) (target_path : Str)
      → Keeps held (move_mount_into_container_namespace k proc_root pid source_fd target_path)
  unfolding move_mount_into_container_namespace
  move_mount_into_container_namespace-held proc_root pid source_fd target_path =
      bind-Keeps held (prepare_target k proc_root pid target_path) _
        (prepare_target-held proc_root pid target_path)
        (λ _.
          opened-held k (wrap "open target path")
            (k.open_file path_directory (target_in_container_root proc_root pid target_path)) _
            (λ target_fd.
              in_mount_namespace-held proc_root pid
                (on_error (wrap "bind mount pv source") (move_mount k source_fd target_fd))
                (move_mount-held source_fd target_fd)))

  enter_root-held : (root_fd : ℕ) → Keeps held (enter_root k root_fd)
  unfolding enter_root
  enter_root-held root_fd =
      bind-Keeps held
        (on_error (wrap "change directory to root fd")
          (call_with root_fd (λ p. change (k.fchdir p))))
        _ (call_with-Keeps held root_fd (λ p. change (k.fchdir p)) (λ p. change-held (k.fchdir p)))
        (λ _.
          bind-Keeps held (on_error (wrap "chroot") (change k.chroot_here)) _
            (change-held k.chroot_here) (λ _. change-held k.chdir_to_root))

  restore_root-held :
      (root_fd cwd_fd : ℕ) (t : Thread D P) → (restore_root k root_fd cwd_fd t).held ≡ t.held
  unfolding restore_root
  restore_root-held root_fd cwd_fd =
      bind-Keeps held (call_with root_fd (λ p. change (k.fchdir p))) _
        (call_with-Keeps held root_fd (λ p. change (k.fchdir p)) (λ p. change-held (k.fchdir p)))
        (λ _. bind-Keeps held (change k.chroot_here) _ (change-held k.chroot_here) (λ _.
          call_with-Keeps held cwd_fd (λ p. change (k.fchdir p)) (λ p. change-held (k.fchdir p))))

  pub unmount_in_root-held :
      (target_root self_root self_cwd : ℕ) (target_path : Str)
      → Keeps held (unmount_in_root k target_root self_root self_cwd target_path)
  unfolding unmount_in_root defer
  unmount_in_root-held target_root self_root self_cwd target_path =
      bind-Keeps held (on_error (wrap "enter target root") (enter_root k target_root)) _
        (enter_root-held target_root)
        (λ _ t.
          restore_root-held self_root self_cwd (call (k.unmount target_path) t).1
          ∙ call-held (k.unmount target_path) t)

  pub unmount_in_container_namespace-held :
      (proc_root : Str) (pid : ℕ) (target_path : Str)
      → Keeps held (unmount_in_container_namespace k proc_root pid target_path)
  unfolding unmount_in_container_namespace is_mounted_at
  unmount_in_container_namespace-held proc_root pid target_path =
      bind-Keeps held (is_mounted_at k (mount_info_path proc_root (itoa pid)) target_path) _
        (λ t. refl)
        (λ mounted.
          bind-Keeps held (lift (fail_if (not mounted) (text "target path is not a mount point"))) _
            (λ t. refl)
            (λ _.
              opened-held k (wrap "open target container root")
                (k.open_file directory (root_path proc_root pid)) _
                (λ target_root.
                  opened-held k (wrap "open current root") (k.open_file directory (codes "/")) _
                    (λ self_root.
                      opened-held k (wrap "open current working directory")
                        (k.open_file directory (codes ".")) _
                        (λ self_cwd.
                          in_mount_namespace-held proc_root pid
                            (unmount_in_root k target_root self_root self_cwd target_path)
                            (unmount_in_root-held target_root self_root self_cwd target_path))))))

  pub legacy_bind_mount_into_container_namespace-held :
      (proc_root : Str) (pid : ℕ) (source_path target_path : Str)
      → Keeps held
          (legacy_bind_mount_into_container_namespace k proc_root pid source_path target_path)
  unfolding legacy_bind_mount_into_container_namespace
  legacy_bind_mount_into_container_namespace-held proc_root pid source_path target_path =
      bind-Keeps held (prepare_target k proc_root pid target_path) _
        (prepare_target-held proc_root pid target_path)
        (λ _.
          in_mount_namespace-held proc_root pid
            (on_error (wrap "bind mount pv source with legacy mount API")
              (bind_mount k source_path (target_in_container_root proc_root pid target_path)))
            (λ t.
              call-held
                (k.bind_mount source_path (target_in_container_root proc_root pid target_path)
                  t.held)
                t))
