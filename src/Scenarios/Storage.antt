-- ===== src/Scenarios/Storage.antt =====
-- Concrete states of the file store.
use kruise_agents_nfs_csi.Prelude.{◌≡◌, refl, true, false, List, [], ◌∷◌, ℕ_discrete, arith}
use kruise_agents_nfs_csi.Go.Text.{Str, codes, str_dec}
use kruise_agents_nfs_csi.Go.Errors.{Result, ok}
use kruise_agents_nfs_csi.Wrapper.Desired.{MountKey, IsStore, key}
use kruise_agents_nfs_csi.Wrapper.RootAuth.{hex}
use kruise_agents_nfs_csi.Wrapper.State.{
  MountStateFile, no_mounts, put_in_memory, delete_in_memory, key_bytes, mount_state_filename,
}
use kruise_agents_nfs_csi.Wrapper.State.Filename.{IsZeroFree, key_bytes-injective}
use kruise_agents_nfs_csi.Wrapper.State.Index.{
  IsIndexed, put_in_memory-IsIndexed, delete_in_memory-IsIndexed,
}
use kruise_agents_nfs_csi.Wrapper.State.Files.{Entry, load, load_entry, accept_state, has_suffix}
use kruise_agents_nfs_csi.Wrapper.State.Files.Kept.{file_store, file_store-IsStore}
use kruise_agents_nfs_csi.Wrapper.State.Files.Loaded.{IsLoaded, load-IsLoaded}
use kruise_agents_nfs_csi.Scenarios.Fixture.{files, bound, desired, no_mounts-IsIndexed}

file_store-IsStore_example : IsStore (file_store files)
file_store-IsStore_example = file_store-IsStore files

put_in_memory-IsIndexed_example : IsIndexed (put_in_memory bound no_mounts)
put_in_memory-IsIndexed_example = put_in_memory-IsIndexed bound no_mounts no_mounts-IsIndexed

delete_in_memory-IsIndexed_example :
    IsIndexed (delete_in_memory (key bound) (put_in_memory desired (put_in_memory bound no_mounts)))
delete_in_memory-IsIndexed_example =
    delete_in_memory-IsIndexed (key bound) (put_in_memory desired (put_in_memory bound no_mounts)) (
      put_in_memory-IsIndexed desired (put_in_memory bound no_mounts)
        put_in_memory-IsIndexed_example)

-- The file that the store has written for the intent, and a directory that is skipped.
abbrev entries : List Entry
entries =
    record { name = codes "old.json"; is_dir = true; contents = ok [] }
    ∷ record {
      name = mount_state_filename files.sha256 (key bound);
      is_dir = false;
      contents = ok [];
    }
    ∷ []

abbrev decode : Str → Result MountStateFile
decode bytes = ok (record { version = 2; mount = bound })

loaded : load files decode entries no_mounts ≡ ok (put_in_memory bound no_mounts)
unfolding load load_entry accept_state has_suffix mount_state_filename codes str_dec ℕ_discrete hex
    key_bytes
loaded = refl

load-IsLoaded_example : IsLoaded files decode entries no_mounts (put_in_memory bound no_mounts)
load-IsLoaded_example =
    load-IsLoaded files decode entries no_mounts (put_in_memory bound no_mounts) no_mounts-IsIndexed
      loaded

abbrev a_key : MountKey
a_key = record { pod_uid = 97 ∷ []; container_name = 98 ∷ []; target_path = 47 ∷ [] }

a_key-IsZeroFree : IsZeroFree a_key
a_key-IsZeroFree = ground arith

key_bytes-injective_example : a_key ≡ a_key
key_bytes-injective_example = key_bytes-injective a_key a_key a_key-IsZeroFree a_key-IsZeroFree refl
