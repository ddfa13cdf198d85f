-- ===== src/Node/Staging.antt =====
-- internal/node/mounter_linux.go: the staged NFS mounts of the wrapper's own namespace.
pub mod Kept
use kruise_agents_nfs_csi.Prelude.{
  ℕ, Bool, true, false, not, ◌&&◌, ◌||◌, List, [], ◌∷◌, ◌++◌, Option, none, some, reverse, ◌==◌,
  if◌then◌else◌,
}
use kruise_agents_nfs_csi.Go.Text.{Str, codes, str_eq, trim_left}
use kruise_agents_nfs_csi.Go.Split.{join}
use kruise_agents_nfs_csi.Go.Clean.{slash}
use kruise_agents_nfs_csi.Go.Search.{path_join}
use kruise_agents_nfs_csi.Go.Errors
use kruise_agents_nfs_csi.Go.Errors.{Err, Result, ok, err, wrap, is, no_entry}
use kruise_agents_nfs_csi.Go.Exec.{Exec, pure, raise, lift, attempt, on_error, ◌>>=◌, ◌>>◌}
use kruise_agents_nfs_csi.Node.{PersistentVolume}
use kruise_agents_nfs_csi.Node.MountInfo.{mount_points_under_root}
use kruise_agents_nfs_csi.Node.Process.{DirEntry}
use kruise_agents_nfs_csi.Node.System.{Kernel, Thread, call}
use kruise_agents_nfs_csi.Node.Namespaces.{is_mounted_at}

abbrev pub self_mount_info : Str
self_mount_info = codes "/proc/self/mountinfo"

-- strings.TrimRight with a cutset of one byte
unfoldable pub trim_right : Str → ℕ → Str
unfolding trim_left
trim_right s b = reverse (trim_left (reverse s) b)

-- The directory of the server that mountNFS mounts.
unfoldable pub remote_path : PersistentVolume → Str
unfolding trim_right
remote_path pv =
    if not (pv.sub_dir == []) && not (pv.sub_dir == slash ∷ [])
    then trim_right pv.share slash ++ (slash ∷ trim_left pv.sub_dir slash)
    else pv.share

-- The command of mountNFS.
unfoldable pub mount_arguments : PersistentVolume → Str → List Str
unfolding join
mount_arguments pv target =
    codes "mount"
    ∷ codes "-t"
    ∷ codes "nfs"
    ∷ ((if join pv.mount_options 44 == [] then [] else codes "-o" ∷ join pv.mount_options 44 ∷ [])
        ++ ((pv.server ++ (58 ∷ remote_path pv)) ∷ target ∷ []))

-- errors.Join of an error so far and what one more call returns
unfoldable pub join_error : Option Err → (Err → Err) → Result (Unit {0}) → Option Err
join_error so_far note (ok done) = so_far
join_error none note (err e) = some (note e)
join_error (some f) note (err e) = some (Errors.join f (note e))

-- `err != nil && !errors.Is(err, os.ErrNotExist)`
unfoldable pub unless_missing : Result (Unit {0}) → Result (Unit {0})
unless_missing (ok done) = ok done
unless_missing (err e) = if is no_entry e then ok tt else err e

abbrev result_of : Option Err → Result (Unit {0})
result_of none = ok tt
result_of (some e) = err e

module _ {D P : Type 0} (k : Kernel D P) where
  -- mountNFS
  unfoldable pub mount_nfs : PersistentVolume → Str → Exec (Thread D P) (Unit {0})
  unfolding call
  mount_nfs pv target =
      on_error (wrap "mount nfs source") (call (k.run (mount_arguments pv target))) >> pure tt

  -- os.Remove, where the path may be missing
  unfoldable pub remove_path : Str → Exec (Thread D P) (Unit {0})
  remove_path path = attempt (call (k.remove path)) >>= λ removed. lift (unless_missing removed)

  -- cleanupStagingPath
  unfoldable pub cleanup_staging_path : Str → Exec (Thread D P) (Unit {0})
  unfolding is_mounted_at
  cleanup_staging_path stage_path = do
    mounted ← is_mounted_at k self_mount_info stage_path
    (if mounted
        then on_error (wrap "unmount staged path") (call (k.unmount stage_path))
        else pure tt)
    on_error (wrap "remove staged path") (remove_path stage_path)

  -- warnCleanupStagingPath: the error is printed
  unfoldable pub warn_cleanup_staging_path : Str → Thread D P → Thread D P
  warn_cleanup_staging_path stage_path t = (cleanup_staging_path stage_path t).1

  -- The first loop of CleanupStagingRoot.
  unfoldable pub unmount_each : List Str → Option Err → Thread D P → Option Err × Thread D P
  unfolding join_error
  unmount_each [] so_far t = (so_far, t)
  unmount_each (path ∷ paths) so_far t =
      let (r, after) = call (k.unmount path) t in
      unmount_each paths (join_error so_far (wrap "unmount") r) after

  -- The second loop of CleanupStagingRoot.
  unfoldable pub remove_each :
      Str → List DirEntry → Option Err → Thread D P → Option Err × Thread D P
  unfolding join_error
  remove_each root [] so_far t = (so_far, t)
  remove_each root (entry ∷ entries) so_far t =
      let skipped = remove_each root entries so_far t in
      let (r, after) = remove_path (path_join (root ∷ entry.name ∷ [])) t in
      let removed =
        remove_each root entries (join_error so_far (wrap "remove staging path") r) after in
      if entry.is_dir then removed else skipped

  abbrev pub after_read_dir :
      Str → Result (List DirEntry) → Option Err → Thread D P → Option Err × Thread D P
  after_read_dir root (err e) so_far t =
      (if is no_entry e then so_far else join_error so_far (wrap "read staging root") (err e), t)
  after_read_dir root (ok entries) so_far t = remove_each root entries so_far t

  abbrev pub cleanup_mounts : Str → Result (List Str) → Thread D P → Option Err × Thread D P
  cleanup_mounts root (err e) t = (some e, t)
  cleanup_mounts root (ok mounts) t =
      let (so_far, after) = unmount_each mounts none t in
      after_read_dir root (k.read_dir root after.attributes after.disk) so_far after

  -- CleanupStagingRoot
  unfoldable pub cleanup_staging_root : Str → Thread D P → Option Err × Thread D P
  unfolding unmount_each remove_each
  cleanup_staging_root root t =
      cleanup_mounts root
        (mount_points_under_root (k.scan_file self_mount_info t.attributes t.disk) root) t
