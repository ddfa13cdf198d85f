-- ===== src/Wrapper/Desired.antt =====
-- internal/wrapper/state.go: a desired mount, its keys, and the interface of the store.
use kruise_agents_nfs_csi.Prelude.{
  ◌≡◌, Bool, ◌&&◌, List, Option, none, some, Eq, ◌==◌, bool_eq, if◌then◌else◌,
}
use kruise_agents_nfs_csi.Go.Text.{Str, str_eq, str_dec}
use kruise_agents_nfs_csi.Go.Errors.{Result, ok, err}
use kruise_agents_nfs_csi.Go.Exec.{Exec}
use kruise_agents_nfs_csi.Api.{MountRequest, MountRequest-discrete, request_eq}

pub record DesiredMount : Type 0 where
  pub request : MountRequest
  pub container_id : Str
  pub legacy_root_classification_unknown : Bool
  pub export_root_authorized : Bool
  pub export_root_key_fingerprint : Str

unfoldable pub DesiredMount-discrete : Discrete DesiredMount
unfolding MountRequest-discrete str_dec
DesiredMount-discrete = hlevel (MountRequest-discrete, str_dec)

instance abbrev pub desired_eq : Eq DesiredMount
desired_eq = record { dec = DesiredMount-discrete }

-- desiredMountKey
pub record MountKey : Type 0 where
  pub pod_uid : Str
  pub container_name : Str
  pub target_path : Str

unfoldable pub MountKey-discrete : Discrete MountKey
unfolding str_dec
MountKey-discrete = hlevel str_dec

instance abbrev pub key_eq : Eq MountKey
key_eq = record { dec = MountKey-discrete }

-- desiredPodKey
pub record PodKey : Type 0 where
  pub namespace : Str
  pub name : Str
  pub uid : Str

unfoldable pub PodKey-discrete : Discrete PodKey
unfolding str_dec
PodKey-discrete = hlevel str_dec

instance abbrev pub pod_key_eq : Eq PodKey
pod_key_eq = record { dec = PodKey-discrete }

-- desiredMountKeyFor
abbrev pub mount_key_for : MountRequest → MountKey
mount_key_for request = record {
  pod_uid = request.pod_uid;
  container_name = request.container_name;
  target_path = request.target_path;
}

-- (desiredMount) key
abbrev pub key : DesiredMount → MountKey
key mount = mount_key_for mount.request

-- desiredPodKeyFor
abbrev pub pod_key_for : MountRequest → PodKey
pod_key_for request = record {
  namespace = request.namespace;
  name = request.pod_name;
  uid = request.pod_uid;
}

-- sameMountIntent
unfoldable pub same_mount_intent : DesiredMount → DesiredMount → Bool
same_mount_intent left right =
    left.request == right.request
    && left.export_root_authorized == right.export_root_authorized
    && left.export_root_key_fingerprint == right.export_root_key_fingerprint

-- mountStateStore, over the state of an implementation
pub record MountStateStore (S : Type 0) : Type 0 where
  pub list : S → List DesiredMount
  pub list_for_pod : PodKey → S → List DesiredMount
  pub get : MountKey → S → Option DesiredMount
  pub put : DesiredMount → Exec S (Unit {0})
  pub delete : MountKey → Exec S (Unit {0})

-- A change that takes effect if it succeeds, and leaves what was there if it fails.
abbrev pub on_success {ℓ κ} : {A : Type ℓ} {B : Type κ} → Result A → B → B → B
on_success (ok a) changed kept = changed
on_success (err e) changed kept = kept

-- What a store promises of Get after a change.
pub record IsStore {S : Type 0} (store : MountStateStore S) : Type 0 where
  pub key-get : (k : MountKey) (s : S) (m : DesiredMount) → store.get k s ≡ some m → key m ≡ k
  pub get-put :
      (m : DesiredMount) (s : S) (k : MountKey)
      → store.get k (store.put m s).1
        ≡ on_success
            (store.put m s).0
            (if key m == k then some m else store.get k s)
            (store.get k s)
  pub get-delete :
      (j : MountKey) (s : S) (k : MountKey)
      → store.get k (store.delete j s).1
        ≡ on_success (store.delete j s).0 (if j == k then none else store.get k s) (store.get k s)
