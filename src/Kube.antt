-- ===== src/Kube.antt =====
-- internal/kube/types.go: the Kubernetes objects that the wrapper reads.
pub mod Informer
pub mod Client
use kruise_agents_nfs_csi.Prelude.{Bool, List, Option}
use kruise_agents_nfs_csi.Go.Text.{Str}

pub record OwnerReference : Type 0 where
  pub api_version : Str
  pub kind : Str
  pub name : Str
  pub uid : Str

pub record ObjectReference : Type 0 where
  pub kind : Str
  pub namespace : Str
  pub name : Str
  pub uid : Str

pub record ObjectMeta : Type 0 where
  pub name : Str
  pub namespace : Str
  pub uid : Str
  pub labels : List (Str × Str)
  pub annotations : List (Str × Str)
  pub owner_references : List OwnerReference

pub record TokenReviewUser : Type 0 where
  pub username : Str
  pub uid : Str
  pub groups : List Str
  pub extra : List (Str × List Str)

pub record TokenReviewStatus : Type 0 where
  pub authenticated : Bool
  pub audiences : List Str
  pub user : TokenReviewUser
  pub error : Str

pub record EnvVar : Type 0 where
  pub name : Str
  pub value : Str

pub record Container : Type 0 where
  pub name : Str
  pub env : List EnvVar

pub record PersistentVolumeClaim : Type 0 where
  pub claim_name : Str
  pub read_only : Bool

pub record Volume : Type 0 where
  pub name : Str
  pub persistent_volume_claim : Option PersistentVolumeClaim

pub record PodSpec : Type 0 where
  pub service_account_name : Str
  pub node_name : Str
  pub volumes : List Volume
  pub containers : List Container

pub record ContainerStatus : Type 0 where
  pub name : Str
  pub container_id : Str
  pub ready : Bool

pub record PodStatus : Type 0 where
  pub phase : Str
  pub container_statuses : List ContainerStatus

pub record Pod : Type 0 where
  pub metadata : ObjectMeta
  pub spec : PodSpec
  pub status : PodStatus

pub record CsiPersistentVolumeSource : Type 0 where
  pub driver : Str
  pub volume_handle : Str
  pub volume_attributes : List (Str × Str)

pub record PersistentVolumeSpec : Type 0 where
  pub claim_ref : Option ObjectReference
  pub csi : Option CsiPersistentVolumeSource
  pub mount_options : List Str

pub record PersistentVolume : Type 0 where
  pub metadata : ObjectMeta
  pub spec : PersistentVolumeSpec
