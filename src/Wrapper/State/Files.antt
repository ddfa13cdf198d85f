-- ===== src/Wrapper/State/Files.antt =====
-- internal/wrapper/state.go: the files of the store, one for each mount.
pub mod Kept
pub mod Loaded
use kruise_agents_nfs_csi.Prelude.{
  ℕ, ◌≡◌, Bool, true, false, not, ◌&&◌, ◌||◌, List, [], ◌∷◌, ◌++◌, Option, none, some, reverse,
  ◌==◌, nat_eq, if◌then◌else◌,
}
use kruise_agents_nfs_csi.Go.Text.{Str, str_eq, codes, has_prefix}
use kruise_agents_nfs_csi.Go.Errors.{
  Err, Result, ok, err, no_entry, is, text, wrap, map_err, fail_if,
}
use kruise_agents_nfs_csi.Go.Errors
use kruise_agents_nfs_csi.Go.Exec.{Exec, pure, raise, lift, attempt, on_error, ◌>>=◌, ◌>>◌}
use kruise_agents_nfs_csi.Go.Maps.{lookup}
use kruise_agents_nfs_csi.Wrapper.Desired.{DesiredMount, MountKey, key, key_eq, on_success}
use kruise_agents_nfs_csi.Wrapper.State.{
  MountStateFile, Memory, no_mounts, mount_state_version, legacy_mount_state_version,
  mount_state_filename, put_in_memory, delete_in_memory,
}

-- Package os on the state directory, whose state is D; files are named within the directory.
-- `contents` is what a reader of a file sees.
pub record Directory (D : Type 0) : Type 0 where
  pub contents : Str → D → Option Str
  pub create_temp : Exec D Str
  pub chmod : Str → Exec D (Unit {0})
  pub write : Str → Str → Exec D (Unit {0})
  pub sync : Str → Exec D (Unit {0})
  pub close : Str → Exec D (Unit {0})
  pub rename : Str → Str → Exec D (Unit {0})
  pub remove : Str → Exec D (Unit {0})
  pub sync_directory : Exec D (Unit {0})

-- The store's parts: the directory, the digest of file names, and the JSON form of a state file.
pub record Files (D : Type 0) : Type 0 where
  pub directory : Directory D
  pub sha256 : Str → Str
  pub encode : MountStateFile → Result Str

-- What the store changes.
pub record Stored (D : Type 0) : Type 0 where
  pub memory : Memory
  pub disk : D

module _ {D : Type 0} (f : Files D) where
  -- A failed step on the temporary file closes it; the error of that is dropped.
  unfoldable pub or_close : Str → Exec D (Unit {0}) → Exec D (Unit {0})
  or_close temporary step d =
      let (r, d') = step d in (r, on_success r d' (f.directory.close temporary d').1)

  -- From the open temporary file to the synced directory.
  unfoldable pub fill_and_replace : Str → Str → Str → Exec D (Unit {0})
  fill_and_replace target payload temporary = do
    on_error (wrap "chmod temporary mount state") (or_close temporary (f.directory.chmod temporary))
    on_error (wrap "write temporary mount state")
        (or_close temporary (f.directory.write temporary payload))
    on_error (wrap "sync temporary mount state") (or_close temporary (f.directory.sync temporary))
    on_error (wrap "close temporary mount state") (f.directory.close temporary)
    on_error (wrap "replace mount state") (f.directory.rename temporary target)
    f.directory.sync_directory

  -- `defer os.Remove(temporaryPath)`
  unfoldable pub with_temporary : (Str → Exec D (Unit {0})) → Str → Exec D (Unit {0})
  with_temporary body temporary d =
      let (r, d') = body temporary d in (r, (f.directory.remove temporary d').1)

  unfoldable pub payload_of : DesiredMount → Result Str
  payload_of mount = elim (f.encode (record { version = mount_state_version; mount = mount })) [
    | ok payload ↦ ok (payload ++ (10 ∷ []))
    | err e ↦ err (wrap "encode mount state" e)
  ]

  -- writeMountLocked
  unfoldable pub write_mount_locked : DesiredMount → Exec D (Unit {0})
  unfolding with_temporary payload_of
  write_mount_locked mount = do
    payload ← lift (payload_of mount)
    temporary ← on_error (wrap "create temporary mount state") f.directory.create_temp
    with_temporary (fill_and_replace (mount_state_filename f.sha256 (key mount)) payload) temporary

  -- Put
  unfoldable pub put : DesiredMount → Exec (Stored D) (Unit {0})
  put mount s =
      let (r, disk) = write_mount_locked mount s.disk in
      (r, record { memory = on_success r (put_in_memory mount s.memory) s.memory; disk = disk })

  -- A file that is missing already is as good as removed.
  unfoldable pub removed : Result (Unit {0}) → Exec D (Unit {0})
  removed (ok _) = f.directory.sync_directory
  removed (err e) =
      if is no_entry e then f.directory.sync_directory else raise (wrap "remove mount state" e)

  unfoldable pub remove_file : Str → Exec D (Unit {0})
  unfolding removed
  remove_file name = attempt (f.directory.remove name) >>= removed

  -- Delete
  unfoldable pub delete_found : MountKey → Option DesiredMount → Exec (Stored D) (Unit {0})
  delete_found k none s = (ok tt, s)
  delete_found k (some mount) s =
      let (r, disk) = remove_file (mount_state_filename f.sha256 k) s.disk in
      (r, record { memory = on_success r (delete_in_memory k s.memory) s.memory; disk = disk })

  unfoldable pub delete : MountKey → Exec (Stored D) (Unit {0})
  unfolding delete_found
  delete k s = delete_found k (lookup k s.memory.mounts) s

  -- The tests of newFileMountStateStore on a decoded file.
  unfoldable pub accept_state : Str → MountStateFile → Result DesiredMount
  accept_state name state =
      elim (not (state.version == legacy_mount_state_version)
        && not (state.version == mount_state_version)) [
          | true ↦ err (text "mount state has unsupported version")
          | false ↦
              let mount =
                if state.version == legacy_mount_state_version
                then record state.mount {
                  export_root_authorized = false;
                  export_root_key_fingerprint = [];
                  legacy_root_classification_unknown = true;
                }
                else state.mount in
              if name == mount_state_filename f.sha256 (key mount)
              then ok mount
              else err (text "mount state filename does not match its mount identity")
        ]

-- strings.HasSuffix
unfoldable pub has_suffix : Str → Str → Bool
unfolding has_prefix
has_suffix s t = has_prefix (reverse s) (reverse t)

-- os.DirEntry, with what os.ReadFile gives for it
pub record Entry : Type 0 where
  pub name : Str
  pub is_dir : Bool
  pub contents : Result Str

module _ {D : Type 0} (f : Files D) (decode : Str → Result MountStateFile) where
  -- The loop's body, for a file that is not skipped.
  unfoldable pub load_entry : Entry → Result DesiredMount
  load_entry entry = Errors.◌>>=◌ (map_err (wrap "read mount state") entry.contents) (λ payload.
      Errors.◌>>=◌ (map_err (wrap "decode mount state") (decode payload))
        (accept_state f entry.name))

  -- The loop's body.
  unfoldable pub load_into : Entry → Memory → Result Memory
  load_into entry m =
      if entry.is_dir || not (has_suffix entry.name (codes ".json"))
      then ok m
      else Errors.◌>>=◌ (load_entry entry) (λ mount. ok (put_in_memory mount m))

  -- newFileMountStateStore, over the entries that os.ReadDir gives
  unfoldable pub load : List Entry → Memory → Result Memory
  unfolding load_into
  load [] m = ok m
  load (entry ∷ entries) m = Errors.◌>>=◌ (load_into entry m) (load entries)
