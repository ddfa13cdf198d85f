-- ===== src/Scenarios/Fixture.antt =====
-- A wrapper with one pod and one volume, over a directory and a node that a list of files and a
-- list of targets stand for.
use kruise_agents_nfs_csi.Prelude.{
  refl, Bool, true, false, ◌&&◌, ◌||◌, List, [], ◌∷◌, Option, none, some, ◌==◌, if◌then◌else◌,
}
use kruise_agents_nfs_csi.Go.Text.{Str, str_eq}
use kruise_agents_nfs_csi.Go.Errors.{ok, err, sentinel, not_found, text}
use kruise_agents_nfs_csi.Go.Maps.{lookup, insert, remove}
use kruise_agents_nfs_csi.Api.{MountRequest, UnmountRequest, version}
use kruise_agents_nfs_csi.Config.{WrapperConfig, nanoseconds}
use kruise_agents_nfs_csi.Kube.{
  TokenReviewStatus, Pod, ContainerStatus, PersistentVolume, CsiPersistentVolumeSource,
}
use kruise_agents_nfs_csi.Node.{MountPlan}
use kruise_agents_nfs_csi.Wrapper.Authz.{
  token_pod_name_extra_key, token_pod_uid_extra_key, allow_namespace_annotation,
}
use kruise_agents_nfs_csi.Wrapper.Authz.Policy.{account_of}
use kruise_agents_nfs_csi.Wrapper.Desired.{DesiredMount}
use kruise_agents_nfs_csi.Wrapper.RootAuth.{ExportRootAuthorizer}
use kruise_agents_nfs_csi.Wrapper.Server.Base.{Kubernetes, Mounter, Server, World}
use kruise_agents_nfs_csi.Wrapper.State.{no_mounts, is_member, keys_of}
use kruise_agents_nfs_csi.Wrapper.State.Index.{IsIndexed, has_key, belongs}
use kruise_agents_nfs_csi.Wrapper.State.Files.{Directory, Files}
use kruise_agents_nfs_csi.Wrapper.State.Files.Kept.{Kept, file_store}

-- The files of a directory: name and content.
abbrev pub Disk : Type 0
Disk = List (Str × Str)

-- ".t"
abbrev pub temporary : Str
temporary = 46 ∷ 116 ∷ []

abbrev move : Str → Option Str → Disk → Disk
move to none disk = disk
move to (some content) disk = insert to content disk

abbrev pub directory : Directory Disk
directory = record {
  contents = λ name disk. lookup name disk;
  create_temp = λ disk. (ok temporary, insert temporary [] disk);
  chmod = λ name disk. (ok tt, disk);
  write = λ name payload disk. (ok tt, insert name payload disk);
  sync = λ name disk. (ok tt, disk);
  close = λ name disk. (ok tt, disk);
  rename = λ from to disk. (ok tt, remove from (move to (lookup from disk) disk));
  remove = λ name disk. (ok tt, remove name disk);
  sync_directory = λ disk. (ok tt, disk);
}

-- A digest and a JSON form that keep the bytes they are given.
abbrev pub files : Files Disk
files = record {
  directory = directory;
  sha256 = λ bytes. bytes;
  encode = λ state. ok state.mount.request.target_path;
}

pub no_mounts-IsIndexed : IsIndexed no_mounts
unfolding lookup has_key belongs is_member keys_of
no_mounts-IsIndexed = record { keyed = λ k. refl; indexed = λ pod k. refl }

abbrev pub empty_store : Kept files
empty_store = record {
  stored = record { memory = no_mounts; disk = [] };
  indexed = no_mounts-IsIndexed;
}

-- The targets that are mounted.
abbrev pub Targets : Type 0
Targets = List Str

abbrev has_target : Str → Targets → Bool
has_target target [] = false
has_target target (t ∷ targets) = t == target || has_target target targets

abbrev drop_target : Str → Targets → Targets
drop_target target [] = []
drop_target target (t ∷ targets) =
    let rest = drop_target target targets in if t == target then rest else t ∷ rest

abbrev pub mounter : Mounter Targets
mounter = record {
  mount = λ plan targets. (ok tt, plan.target_path ∷ targets);
  unmount = λ plan targets. (ok tt, drop_target plan.target_path targets);
  is_mounted = λ plan targets. ok (has_target plan.target_path targets);
}

-- A node that refuses every mount.
abbrev pub refusing : Mounter Targets
refusing = record mounter { mount = λ plan targets. (err (text "mount failed"), targets) }

-- "ns", "pod", "uid", "sa", "main", "c1", "pv", "nfs.csi", "node"
abbrev pub ns : Str
ns = 110 ∷ 115 ∷ []

abbrev pub pod_name : Str
pod_name = 112 ∷ 111 ∷ 100 ∷ []

abbrev pub pod_uid : Str
pod_uid = 117 ∷ 105 ∷ 100 ∷ []

abbrev pub account : Str
account = 115 ∷ 97 ∷ []

abbrev pub container : Str
container = 109 ∷ 97 ∷ 105 ∷ 110 ∷ []

abbrev pub container_id : Str
container_id = 99 ∷ 49 ∷ []

abbrev pub pv_name : Str
pv_name = 112 ∷ 118 ∷ []

abbrev pub driver : Str
driver = 110 ∷ 102 ∷ 115 ∷ []

abbrev pub node_name : Str
node_name = 110 ∷ 49 ∷ []

-- "/data" and "sub"
abbrev pub target : Str
target = 47 ∷ 100 ∷ 97 ∷ 116 ∷ 97 ∷ []

abbrev pub sub_path : Str
sub_path = 115 ∷ 117 ∷ 98 ∷ []

abbrev pub token : Str
token = 116 ∷ 111 ∷ 107 ∷ []

abbrev pub cfg : WrapperConfig
cfg = record {
  driver_name = driver;
  socket_path = [];
  socket_mode = 432;
  token_audience = [];
  kube_token_file = [];
  kube_ca_file = [];
  staging_root = [];
  mount_state_dir = [];
  node_name = node_name;
  host_proc_root = [];
  request_timeout = nanoseconds 1;
  enable_mount = true;
  unstage_after_mount = true;
  create_missing_sub_paths = false;
  created_sub_path_mode = 493;
  export_root_key_file = [];
}

abbrev pub status : TokenReviewStatus
status = record {
  authenticated = true;
  audiences = [];
  user = record {
    username = account_of ns account;
    uid = [];
    groups = [];
    extra =
        (token_pod_name_extra_key, pod_name ∷ []) ∷ (token_pod_uid_extra_key, pod_uid ∷ []) ∷ [];
  };
  error = [];
}

abbrev pub container_status : ContainerStatus
container_status = record { name = container; container_id = container_id; ready = true }

abbrev pub pod : Pod
pod = record {
  metadata = record {
    name = pod_name;
    namespace = ns;
    uid = pod_uid;
    labels = [];
    annotations = [];
    owner_references = [];
  };
  spec = record {
    service_account_name = account;
    node_name = node_name;
    volumes = [];
    containers = record { name = container; env = [] } ∷ [];
  };
  status = record { phase = []; container_statuses = container_status ∷ [] };
}

-- "10.0.0.1" and "/export" are shortened to one byte each; the allowlist is "ns".
abbrev pub csi : CsiPersistentVolumeSource
csi = record {
  driver = driver;
  volume_handle = [];
  volume_attributes =
      ((115 ∷ 101 ∷ 114 ∷ 118 ∷ 101 ∷ 114 ∷ []), 49 ∷ [])
      ∷ ((115 ∷ 104 ∷ 97 ∷ 114 ∷ 101 ∷ []), 47 ∷ [])
      ∷ [];
}

abbrev pub volume : PersistentVolume
volume = record {
  metadata = record {
    name = pv_name;
    namespace = [];
    uid = [];
    labels = [];
    annotations = (allow_namespace_annotation, ns) ∷ [];
    owner_references = [];
  };
  spec = record { claim_ref = none; csi = some csi; mount_options = [] };
}

abbrev pub kube : Kubernetes
kube = record {
  review_token = λ t audiences. ok (some status);
  get_pod = λ namespace name.
      if namespace == ns && name == pod_name then ok pod else err (sentinel not_found);
  get_persistent_volume = λ name. if name == pv_name then ok volume else err (sentinel not_found);
}

-- A configured export-root key.
abbrev pub root : ExportRootAuthorizer
root = record { configured = true; key_hash = 107 ∷ []; fingerprint = 102 ∷ [] }

abbrev pub server : Server (Kept files) Targets
server = record {
  cfg = cfg;
  kube = kube;
  mounter = mounter;
  state = file_store files;
  export_root = root;
  sha256 = λ bytes. bytes;
}

abbrev pub refusing_server : Server (Kept files) Targets
refusing_server = record server { mounter = refusing }

abbrev pub empty_world : World (Kept files) Targets
empty_world = record { store = empty_store; node = [] }

abbrev pub request : MountRequest
request = record {
  api_version = version;
  driver_name = driver;
  namespace = ns;
  pod_name = pod_name;
  pod_uid = pod_uid;
  pv_name = pv_name;
  source_sub_path = sub_path;
  target_path = target;
  container_name = container;
}

abbrev pub unmount_request : UnmountRequest
unmount_request = record {
  api_version = version;
  driver_name = driver;
  namespace = ns;
  pod_name = pod_name;
  pod_uid = pod_uid;
  pv_name = pv_name;
  target_path = target;
  container_name = container;
}

abbrev pub plan : MountPlan
plan = record {
  pv = record {
    name = pv_name;
    volume_handle = [];
    server = 49 ∷ [];
    share = 47 ∷ [];
    sub_dir = [];
    mount_options = [];
  };
  pod_uid = pod_uid;
  container_name = container;
  container_id = container_id;
  source_sub_path = sub_path;
  target_path = target;
}

-- The intent before and behind the mount.
abbrev pub desired : DesiredMount
desired = record {
  request = request;
  container_id = [];
  legacy_root_classification_unknown = false;
  export_root_authorized = false;
  export_root_key_fingerprint = [];
}

abbrev pub bound : DesiredMount
bound = record desired { container_id = container_id }

-- The world in which the intent is stored, and its target mounted.
abbrev pub bound_world : World (Kept files) Targets
bound_world = record { store = ((file_store files).put bound empty_store).1; node = target ∷ [] }
