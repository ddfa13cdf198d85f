-- ===== src/Wrapper/State.antt =====
-- internal/wrapper/state.go: the store of desired mounts, one file for each. What package os does
-- with the directory, the digest of crypto/sha256 and encoding/json are parameters. A Go map is an
-- association list.
pub mod Index
pub mod Files
pub mod Filename
use kruise_agents_nfs_csi.Prelude.{
  ℕ, Bool, true, false, not, ◌&&◌, ◌||◌, List, [], ◌∷◌, ◌++◌, Option, none, some, String, map, any,
  ltb, ◌==◌, nat_eq, if◌then◌else◌,
}
use kruise_agents_nfs_csi.Go.Text.{Str, str_eq, codes, has_prefix}
use kruise_agents_nfs_csi.Go.Errors.{Err, Result, ok, err, no_entry, is, text, wrap, map_err}
use kruise_agents_nfs_csi.Go.Exec.{Exec, pure, raise, lift, attempt, on_error, ◌>>=◌, ◌>>◌}
use kruise_agents_nfs_csi.Go.Maps.{lookup, insert, remove}
use kruise_agents_nfs_csi.Wrapper.Desired.{
  DesiredMount, MountKey, PodKey, MountStateStore, key, key_eq, pod_key_eq, pod_key_for,
}
use kruise_agents_nfs_csi.Wrapper.RootAuth.{hex}

abbrev pub legacy_mount_state_version : ℕ
legacy_mount_state_version = 1

abbrev pub mount_state_version : ℕ
mount_state_version = 2

-- mountStateFile
pub record MountStateFile : Type 0 where
  pub version : ℕ
  pub mount : DesiredMount

-- The maps of fileMountStateStore; a set of keys is a list.
pub record Memory : Type 0 where
  pub mounts : List (MountKey × DesiredMount)
  pub by_pod : List (PodKey × List MountKey)

abbrev pub no_mounts : Memory
no_mounts = record { mounts = []; by_pod = [] }

-- m[k] of a map of sets: a missing set is nil
unfoldable pub keys_of : Option (List MountKey) → List MountKey
keys_of none = []
keys_of (some keys) = keys

unfoldable pub is_member : MountKey → List MountKey → Bool
is_member k [] = false
is_member k (j ∷ keys) = j == k || is_member k keys

-- set[k] = struct{}{}
unfoldable pub add : MountKey → List MountKey → List MountKey
add k keys = if is_member k keys then keys else k ∷ keys

-- delete(set, k)
unfoldable pub discard : MountKey → List MountKey → List MountKey
discard k [] = []
discard k (j ∷ keys) = let rest = discard k keys in if j == k then rest else j ∷ rest

-- An emptied set is dropped.
unfoldable pub keep_set :
    PodKey → List MountKey → List (PodKey × List MountKey) → List (PodKey × List MountKey)
keep_set pod [] by_pod = remove pod by_pod
keep_set pod (k ∷ keys) by_pod = insert pod (k ∷ keys) by_pod

-- deleteInMemory
unfoldable pub forget : MountKey → Option DesiredMount → Memory → Memory
forget k none m = m
forget k (some mount) m = record {
  mounts = remove k m.mounts;
  by_pod =
      keep_set (pod_key_for mount.request)
        (discard k (keys_of (lookup (pod_key_for mount.request) m.by_pod))) m.by_pod;
}

unfoldable pub delete_in_memory : MountKey → Memory → Memory
unfolding forget
delete_in_memory k m = forget k (lookup k m.mounts) m

-- The last two assignments of putInMemory.
unfoldable pub store_entry : DesiredMount → Memory → Memory
store_entry mount m =
    let pod = pod_key_for mount.request in
    record {
      mounts = insert (key mount) mount m.mounts;
      by_pod = insert pod (add (key mount) (keys_of (lookup pod m.by_pod))) m.by_pod;
    }

-- putInMemory: what was there for the key is deleted first
unfoldable pub displace : Option DesiredMount → Memory → Memory
displace none m = m
displace (some previous) m = delete_in_memory (key previous) m

unfoldable pub put_in_memory : DesiredMount → Memory → Memory
unfolding displace
put_in_memory mount m = store_entry mount (displace (lookup (key mount) m.mounts) m)

-- Go's `<` on strings
unfoldable pub str_less : Str → Str → Bool
str_less s [] = false
str_less [] (d ∷ t) = true
str_less (c ∷ s) (d ∷ t) = ltb c d || (c == d && str_less s t)

-- The order of sortDesiredMounts.
unfoldable pub key_less : MountKey → MountKey → Bool
key_less left right =
    if not (left.pod_uid == right.pod_uid)
    then str_less left.pod_uid right.pod_uid
    else if not (left.container_name == right.container_name)
    then str_less left.container_name right.container_name
    else str_less left.target_path right.target_path

-- sortDesiredMounts; no two mounts of the store have the same key, so the order is all that counts
unfoldable pub place : DesiredMount → List DesiredMount → List DesiredMount
place mount [] = mount ∷ []
place mount (next ∷ mounts) =
    let rest = place mount mounts in
    if key_less (key next) (key mount) then next ∷ rest else mount ∷ next ∷ mounts

unfoldable pub sort_desired_mounts : List DesiredMount → List DesiredMount
unfolding place
sort_desired_mounts [] = []
sort_desired_mounts (mount ∷ mounts) = place mount (sort_desired_mounts mounts)

-- List
unfoldable pub list : Memory → List DesiredMount
list m = sort_desired_mounts (map (λ entry. entry.1) m.mounts)

-- desiredMount{}, which reading a missing key gives
abbrev zero_mount : DesiredMount
zero_mount = record {
  request = record {
    api_version = [];
    driver_name = [];
    namespace = [];
    pod_name = [];
    pod_uid = [];
    pv_name = [];
    source_sub_path = [];
    target_path = [];
    container_name = [];
  };
  container_id = [];
  legacy_root_classification_unknown = false;
  export_root_authorized = false;
  export_root_key_fingerprint = [];
}

-- append(mounts, s.mounts[mountKey])
unfoldable pub found : Option DesiredMount → List DesiredMount → List DesiredMount
found none mounts = zero_mount ∷ mounts
found (some mount) mounts = mount ∷ mounts

unfoldable pub mounts_of : List MountKey → Memory → List DesiredMount
mounts_of [] m = []
mounts_of (k ∷ keys) m = found (lookup k m.mounts) (mounts_of keys m)

-- ListForPod
unfoldable pub list_for_pod : PodKey → Memory → List DesiredMount
list_for_pod pod m = sort_desired_mounts (mounts_of (keys_of (lookup pod m.by_pod)) m)

-- What mountStateFilename feeds to the digest.
unfoldable pub key_bytes : MountKey → Str
key_bytes k = k.pod_uid ++ (0 ∷ k.container_name ++ (0 ∷ k.target_path ++ (0 ∷ [])))

-- mountStateFilename
unfoldable pub mount_state_filename : (Str → Str) → MountKey → Str
mount_state_filename sha256 k = hex (sha256 (key_bytes k)) ++ codes ".json"
