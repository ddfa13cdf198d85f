-- ===== src/Wrapper/State/Index.antt =====
-- internal/wrapper/state.go: the index by pod agrees with the map of mounts.
use kruise_agents_nfs_csi.Prelude.{
  ◌≡◌, refl, Bool, true, false, not, ◌&&◌, ◌||◌, List, [], ◌∷◌, Option, none, some, arith, ◌==◌,
  if◌then◌else◌,
}
use kruise_agents_nfs_csi.Go.Maps.{lookup, lookup-insert, lookup-remove}
use kruise_agents_nfs_csi.Wrapper.Desired.{
  DesiredMount, MountKey, PodKey, key, key_eq, pod_key_eq, pod_key_for,
}
use kruise_agents_nfs_csi.Wrapper.State.{
  Memory, keys_of, is_member, add, discard, keep_set, forget, delete_in_memory, store_entry,
  displace, put_in_memory,
}

member-add :
    (j k : MountKey) (keys : List MountKey)
    → is_member j (add k keys) ≡ (k == j || is_member j keys)
unfolding add is_member
member-add j k keys = ground arith

member-discard :
    (j k : MountKey) (keys : List MountKey)
    → is_member j (discard k keys) ≡ (not (k == j) && is_member j keys)
unfolding discard is_member
member-discard j k [] = ground arith
member-discard j k (i ∷ keys) = ground (arith, member-discard j k keys)

lookup-keep_set :
    (pod q : PodKey) (keys : List MountKey) (by_pod : List (PodKey × List MountKey))
    → keys_of (lookup q (keep_set pod keys by_pod))
      ≡ (if pod == q then keys else keys_of (lookup q by_pod))
unfolding keep_set keys_of
lookup-keep_set pod q [] by_pod = ground (arith, lookup-remove pod q by_pod)
lookup-keep_set pod q (k ∷ keys) by_pod = ground (arith, lookup-insert pod q (k ∷ keys) by_pod)

-- The keys of the index for a pod.
abbrev pub keys_for : PodKey → Memory → List MountKey
keys_for pod m = keys_of (lookup pod m.by_pod)

-- The mount is there, and of the pod.
unfoldable pub belongs : PodKey → Option DesiredMount → Bool
belongs pod none = false
belongs pod (some mount) = pod_key_for mount.request == pod

-- The mount, if there is one, has the key.
unfoldable pub has_key : MountKey → Option DesiredMount → Bool
has_key k none = true
has_key k (some mount) = key mount == k

-- Each mount is stored under its key, and the index holds a key for a pod exactly if the mount of
-- that key is of that pod.
pub record IsIndexed (m : Memory) : Type 0 where
  pub keyed : (k : MountKey) → has_key k (lookup k m.mounts) ≡ true
  pub indexed :
      (pod : PodKey) (k : MountKey) → is_member k (keys_for pod m) ≡ belongs pod (lookup k m.mounts)

forget-indexed :
    (k : MountKey) (mount : DesiredMount) (m : Memory) (pod : PodKey) (j : MountKey)
    → IsIndexed m
    → lookup k m.mounts ≡ some mount
    → is_member j (keys_for pod (forget k (some mount) m))
      ≡ belongs pod (lookup j (forget k (some mount) m).mounts)
unfolding forget belongs
forget-indexed k mount m pod j i h =
    let own = pod_key_for mount.request in
    ground (
      arith,
      i.indexed pod j,
      lookup-remove k j m.mounts,
      lookup-keep_set own pod (discard k (keys_for own m)) m.by_pod,
      member-discard j k (keys_for own m),
    )

forget-keyed :
    (k : MountKey) (mount : DesiredMount) (m : Memory) (j : MountKey)
    → IsIndexed m
    → has_key j (lookup j (forget k (some mount) m).mounts) ≡ true
unfolding forget has_key
forget-keyed k mount m j i = ground (arith, i.keyed j, lookup-remove k j m.mounts)

forget-IsIndexed :
    (k : MountKey) (o : Option DesiredMount) (m : Memory)
    → lookup k m.mounts ≡ o
    → IsIndexed m
    → IsIndexed (forget k o m)
forget-IsIndexed k none m h i = unfold forget in i
forget-IsIndexed k (some mount) m h i = record {
  keyed = λ j. forget-keyed k mount m j i;
  indexed = λ pod j. forget-indexed k mount m pod j i h;
}

-- Deleting a mount leaves the index in agreement with the mounts.
pub delete_in_memory-IsIndexed :
    (k : MountKey) (m : Memory) → IsIndexed m → IsIndexed (delete_in_memory k m)
unfolding delete_in_memory
delete_in_memory-IsIndexed k m i = forget-IsIndexed k (lookup k m.mounts) m refl i

-- After a delete the key is gone, and every other key holds what it held.
pub lookup-delete_in_memory :
    (k j : MountKey) (m : Memory)
    → lookup j (delete_in_memory k m).mounts ≡ (if k == j then none else lookup j m.mounts)
unfolding delete_in_memory forget
lookup-delete_in_memory k j m = go (lookup k m.mounts) refl
  where
    go :
        (o : Option DesiredMount)
        → lookup k m.mounts ≡ o
        → lookup j (forget k o m).mounts ≡ (if k == j then none else lookup j m.mounts)
    go none h = ground arith
    go (some mount) h = lookup-remove k j m.mounts

store_entry-indexed :
    (mount : DesiredMount) (m : Memory) (pod : PodKey) (j : MountKey)
    → IsIndexed m
    → lookup (key mount) m.mounts ≡ none
    → is_member j (keys_for pod (store_entry mount m))
      ≡ belongs pod (lookup j (store_entry mount m).mounts)
unfolding store_entry belongs keys_of
store_entry-indexed mount m pod j i h =
    let own = pod_key_for mount.request in
    ground (
      arith,
      i.indexed pod j,
      lookup-insert (key mount) j mount m.mounts,
      lookup-insert own pod (add (key mount) (keys_for own m)) m.by_pod,
      member-add j (key mount) (keys_for own m),
    )

store_entry-keyed :
    (mount : DesiredMount) (m : Memory) (j : MountKey)
    → IsIndexed m
    → has_key j (lookup j (store_entry mount m).mounts) ≡ true
unfolding store_entry has_key
store_entry-keyed mount m j i =
    ground (arith, i.keyed j, lookup-insert (key mount) j mount m.mounts)

-- The displaced mount is the one of the key.
displace-delete :
    (k : MountKey) (m : Memory)
    → IsIndexed m
    → (lookup k (displace (lookup k m.mounts) m).mounts ≡ none)
      × (IsIndexed (displace (lookup k m.mounts) m))
unfolding displace has_key
displace-delete k m i = go (lookup k m.mounts) refl
  where
    go :
        (o : Option DesiredMount)
        → lookup k m.mounts ≡ o
        → (lookup k (displace o m).mounts ≡ none) × (IsIndexed (displace o m))
    go none h = (h, i)
    go (some previous) h = (
      ground (arith, i.keyed k, lookup-delete_in_memory (key previous) k m),
      delete_in_memory-IsIndexed (key previous) m i,
    )

-- Putting a mount leaves the index in agreement with the mounts, also when it takes the place of
-- one of another pod.
pub put_in_memory-IsIndexed :
    (mount : DesiredMount) (m : Memory) → IsIndexed m → IsIndexed (put_in_memory mount m)
unfolding put_in_memory
put_in_memory-IsIndexed mount m i =
    let (h, d) = displace-delete (key mount) m i in
    record {
      keyed = λ j. store_entry-keyed mount _ j d;
      indexed = λ pod j. store_entry-indexed mount _ pod j d h;
    }

-- After a put the key holds the new mount, and every other key what it held.
pub lookup-put_in_memory :
    (mount : DesiredMount) (k : MountKey) (m : Memory)
    → IsIndexed m
    → lookup k (put_in_memory mount m).mounts
      ≡ (if key mount == k then some mount else lookup k m.mounts)
unfolding put_in_memory store_entry displace has_key
lookup-put_in_memory mount k m i = go (lookup (key mount) m.mounts) refl
  where
    go :
        (o : Option DesiredMount)
        → lookup (key mount) m.mounts ≡ o
        → lookup k (store_entry mount (displace o m)).mounts
          ≡ (if key mount == k then some mount else lookup k m.mounts)
    go none h = lookup-insert (key mount) k mount m.mounts
    go (some previous) h = ground (
      arith,
      i.keyed (key mount),
      lookup-delete_in_memory (key previous) k m,
      lookup-insert (key mount) k mount (delete_in_memory (key previous) m).mounts,
    )
