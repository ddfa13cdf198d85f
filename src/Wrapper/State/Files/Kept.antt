-- ===== src/Wrapper/State/Files/Kept.antt =====
-- internal/wrapper/state.go: the file store keeps the promises of the store's interface.
use kruise_agents_nfs_csi.Prelude.{◌≡◌, true, Option, none, some, arith, ◌==◌, if◌then◌else◌}
use kruise_agents_nfs_csi.Go.Maps.{lookup}
use kruise_agents_nfs_csi.Wrapper.Desired.{
  DesiredMount, MountKey, MountStateStore, IsStore, on_success, key, key_eq,
}
use kruise_agents_nfs_csi.Wrapper.State.{list, list_for_pod}
use kruise_agents_nfs_csi.Wrapper.State.Index.{
  IsIndexed, has_key, put_in_memory-IsIndexed, delete_in_memory-IsIndexed, lookup-put_in_memory,
  lookup-delete_in_memory,
}
use kruise_agents_nfs_csi.Wrapper.State.Files.{Files, Stored, put, delete_found, delete}

module _ {D : Type 0} (f : Files D) where
  pub put-IsIndexed :
      (mount : DesiredMount) (s : Stored D)
      → IsIndexed s.memory
      → IsIndexed (put f mount s).1.memory
  unfolding put
  put-IsIndexed mount s i = ground (arith, i, put_in_memory-IsIndexed mount s.memory i)

  get-put_lem :
      (mount : DesiredMount) (s : Stored D) (k : MountKey)
      → IsIndexed s.memory
      → lookup k (put f mount s).1.memory.mounts
        ≡ on_success
            (put f mount s).0
            (if key mount == k then some mount else lookup k s.memory.mounts)
            (lookup k s.memory.mounts)
  unfolding put
  get-put_lem mount s k i = ground (arith, lookup-put_in_memory mount k s.memory i)

  pub delete-IsIndexed :
      (k : MountKey) (s : Stored D) → IsIndexed s.memory → IsIndexed (delete f k s).1.memory
  unfolding delete delete_found
  delete-IsIndexed k s i = ground (arith, i, delete_in_memory-IsIndexed k s.memory i)

  get-delete_lem :
      (j : MountKey) (s : Stored D) (k : MountKey)
      → lookup k (delete f j s).1.memory.mounts
        ≡ on_success
            (delete f j s).0
            (if j == k then none else lookup k s.memory.mounts)
            (lookup k s.memory.mounts)
  unfolding delete delete_found
  get-delete_lem j s k = ground (arith, lookup-delete_in_memory j k s.memory)

  -- A state of the store with its invariant.
  pub record Kept : Type 0 where
    pub stored : Stored D
    pub indexed : IsIndexed stored.memory

  -- fileMountStateStore as a mountStateStore
  abbrev pub file_store : MountStateStore Kept
  file_store = record {
    list = λ s. list s.stored.memory;
    list_for_pod = λ pod s. list_for_pod pod s.stored.memory;
    get = λ k s. lookup k s.stored.memory.mounts;
    put = λ mount s. (
      (put f mount s.stored).0,
      record {
        stored = (put f mount s.stored).1;
        indexed = put-IsIndexed mount s.stored s.indexed;
      },
    );
    delete = λ k s. (
      (delete f k s.stored).0,
      record { stored = (delete f k s.stored).1; indexed = delete-IsIndexed k s.stored s.indexed },
    );
  }

  has_key-key :
      (k : MountKey) (o : Option DesiredMount) (mount : DesiredMount)
      → has_key k o ≡ true
      → o ≡ some mount
      → key mount ≡ k
  unfolding has_key
  has_key-key k o mount h e = ground arith

  -- The file store keeps the promises of the interface, whatever the directory's calls return.
  pub file_store-IsStore : IsStore file_store
  file_store-IsStore = record {
    key-get = λ k s mount h. has_key-key k _ mount (s.indexed.keyed k) h;
    get-put = λ mount s k. get-put_lem mount s.stored k s.indexed;
    get-delete = λ j s k. get-delete_lem j s.stored k;
  }
