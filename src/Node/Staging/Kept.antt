-- ===== src/Node/Staging/Kept.antt =====
-- Staging leaves the thread's descriptors and its namespace alone: its calls go by paths.
use kruise_agents_nfs_csi.Prelude.{◌≡◌, refl, Bool, true, false, if◌then◌else◌}
use kruise_agents_nfs_csi.Go.Text.{Str}
use kruise_agents_nfs_csi.Go.Errors.{wrap}
use kruise_agents_nfs_csi.Go.Exec.{Exec, pure, lift, attempt, on_error, ◌>>=◌}
use kruise_agents_nfs_csi.Node.{PersistentVolume}
use kruise_agents_nfs_csi.Node.System.{Kernel, Thread, Attributes, call}
use kruise_agents_nfs_csi.Node.System.Held.{Keeps, bind-Keeps}
use kruise_agents_nfs_csi.Node.Namespaces.{is_mounted_at}
use kruise_agents_nfs_csi.Node.Staging.{
  self_mount_info, mount_nfs, mount_arguments, remove_path, unless_missing, cleanup_staging_path,
  warn_cleanup_staging_path,
}

module _ {D P X : Type 0} (k : Kernel D P) (part : Thread D P → X)
    (calls : (f : Attributes P → Exec D (Unit {0})) → Keeps part (call f))
    (commands : (f : Attributes P → Exec D Str) → Keeps part (call f)) where
  pub mount_nfs-Keeps : (pv : PersistentVolume) (target : Str) → Keeps part (mount_nfs k pv target)
  unfolding mount_nfs
  mount_nfs-Keeps pv target =
      bind-Keeps part
        (on_error (wrap "mount nfs source") (call (k.run (mount_arguments pv target))))
        (λ _. pure tt) (commands (k.run (mount_arguments pv target))) (λ _ t. refl)

  remove_path-Keeps : (path : Str) → Keeps part (remove_path k path)
  unfolding remove_path
  remove_path-Keeps path =
      bind-Keeps part (attempt (call (k.remove path))) (λ removed. lift (unless_missing removed))
        (calls (k.remove path)) (λ removed t. refl)

  cleanup_staging_path-Keeps : (stage_path : Str) → Keeps part (cleanup_staging_path k stage_path)
  unfolding cleanup_staging_path is_mounted_at
  cleanup_staging_path-Keeps stage_path =
      bind-Keeps part (is_mounted_at k self_mount_info stage_path)
        (λ mounted. detach mounted >>= λ _. remove) (λ t. refl)
        (λ mounted.
          bind-Keeps part (detach mounted) (λ _. remove) (detached mounted)
            (λ _. remove_path-Keeps stage_path))
    where
      detach : Bool → Exec (Thread D P) (Unit {0})
      detach mounted =
          if mounted
          then on_error (wrap "unmount staged path") (call (k.unmount stage_path))
          else pure tt

      detached : (mounted : Bool) → Keeps part (detach mounted)
      detached true = calls (k.unmount stage_path)
      detached false = λ t. refl

      remove : Exec (Thread D P) (Unit {0})
      remove = on_error (wrap "remove staged path") (remove_path k stage_path)

  pub warn_cleanup_staging_path-Keeps :
      (stage_path : Str) (t : Thread D P) → part (warn_cleanup_staging_path k stage_path t) ≡ part t
  unfolding warn_cleanup_staging_path
  warn_cleanup_staging_path-Keeps stage_path t = cleanup_staging_path-Keeps stage_path t
