-- ===== src/Node/Tree.antt =====
-- internal/node/mounter_linux.go: the walk below the staged mount, one directory after the other.
pub mod Entered
pub mod Walked
pub mod Stays
use kruise_agents_nfs_csi.Prelude.{
  ℕ, Bool, true, false, not, ◌&&◌, ◌||◌, List, [], ◌∷◌, ◌==◌, nat_eq, if◌then◌else◌,
}
use kruise_agents_nfs_csi.Go.Text.{Str}
use kruise_agents_nfs_csi.Go.Errors.{
  Err, Result, ok, err, is, sentinel, bad_source_sub_path, not_directory, symlink_loop,
  name_too_long, no_entry, already_exists, annotate, wrap,
}
use kruise_agents_nfs_csi.Go.Exec.{Exec, pure, raise, lift, attempt, on_error, ◌>>=◌, ◌>>◌}
use kruise_agents_nfs_csi.Config.Modes.{unix_mode_of}
use kruise_agents_nfs_csi.Node.Segments.{source_sub_path_segments}
use kruise_agents_nfs_csi.Node.System.{
  Kernel, Thread, call, call_with, open_fd, close_fd, path_no_follow,
}

-- sourceSubPathOpenError
unfoldable pub source_sub_path_open_error : Bool → Err → Err
unfolding is
source_sub_path_open_error missing_is_bad e =
    if is not_directory e
      || is symlink_loop e
      || is name_too_long e
      || (missing_is_bad && is no_entry e)
    then annotate (sentinel bad_source_sub_path) e
    else wrap "open source_sub_path" e

-- sourceSubPathCreateError
unfoldable pub source_sub_path_create_error : Err → Err
source_sub_path_create_error e = wrap "create source_sub_path" e

-- createdSubPathUnixMode; the default mode is 0770
unfoldable pub created_sub_path_unix_mode : ℕ → ℕ
unfolding unix_mode_of
created_sub_path_unix_mode mode = unix_mode_of (if mode == 0 then 0o770 else mode)

-- `if mkdirErr != nil && !errors.Is(mkdirErr, unix.EEXIST)`
unfoldable pub tolerate : Result (Unit {0}) → Result (Unit {0})
tolerate (ok made) = ok made
tolerate (err e) = if is already_exists e then ok tt else err (source_sub_path_create_error e)

module _ {D P : Type 0} where
  -- closeDirectoryWalkFDs
  unfoldable pub close_directory_walk_fds : ℕ → ℕ → Thread D P → Thread D P
  unfolding close_fd
  close_directory_walk_fds dir current t =
      close_fd dir (if current == dir then t else close_fd current t)

  -- `if currentFD != dirFD { _ = unix.Close(currentFD) }` of the loop
  abbrev pub leave : ℕ → ℕ → Thread D P → Thread D P
  leave dir current t = if current == dir then t else close_fd current t

module _ {D P : Type 0} (k : Kernel D P) where
  unfoldable pub open_segment : ℕ → Str → Exec (Thread D P) ℕ
  unfolding call_with open_fd
  open_segment current segment = call_with current (λ p. open_fd k (λ _. k.open_at p segment))

  -- The branch for a missing directory, without the closing of descriptors on an error.
  unfoldable pub create_segment : ℕ → ℕ → Str → Exec (Thread D P) ℕ
  unfolding call
  create_segment mode current segment = do
    made ← attempt (
        call_with current (λ p. call (λ _. k.mkdir_at p segment (created_sub_path_unix_mode mode))))
    lift (tolerate made)
    on_error (source_sub_path_open_error false) (open_segment current segment)

  abbrev pub after_open : Bool → ℕ → ℕ → Str → Result ℕ → Exec (Thread D P) ℕ
  after_open create mode current segment (ok next) = pure next
  after_open create mode current segment (err e) =
      if is no_entry e && create
      then create_segment mode current segment
      else raise (source_sub_path_open_error (not create) e)

  -- One pass of the loop, up to the errors' closing of descriptors.
  unfoldable pub enter_segment : Bool → ℕ → ℕ → Str → Exec (Thread D P) ℕ
  enter_segment create mode current segment =
      attempt (open_segment current segment) >>= after_open create mode current segment

  -- An error ends the loop; else it goes on from the directory below.
  abbrev pub go_on : ℕ → ℕ → (ℕ → Exec (Thread D P) ℕ) → Result ℕ → Exec (Thread D P) ℕ
  go_on dir current rest (err e) t = (err e, close_directory_walk_fds dir current t)
  go_on dir current rest (ok next) t = rest next (leave dir current t)

  -- The loop, and what follows it.
  unfoldable pub walk : Bool → ℕ → ℕ → ℕ → List Str → Exec (Thread D P) ℕ
  unfolding enter_segment close_directory_walk_fds
  walk create mode dir current [] t =
      if current == dir then (ok dir, t) else (ok current, close_fd dir t)
  walk create mode dir current (segment ∷ segments) t =
      let rest = λ (next : ℕ). walk create mode dir next segments in
      let (r, after) = enter_segment create mode current segment t in go_on dir current rest r after

  -- openDirectoryNoFollow
  unfoldable pub open_directory_no_follow : Str → Str → Bool → ℕ → Exec (Thread D P) ℕ
  open_directory_no_follow stage_path source_sub_path create mode = do
    segments ← lift (source_sub_path_segments source_sub_path)
    dir ← on_error (wrap "open staged mount") (open_fd k (k.open_file path_no_follow stage_path))
    walk create mode dir dir segments
