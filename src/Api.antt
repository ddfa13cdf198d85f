-- ===== src/Api.antt =====
-- internal/api/types.go: the messages between the mounter client and the wrapper.
use kruise_agents_nfs_csi.Prelude.{Bool, Eq}
use kruise_agents_nfs_csi.Go.Text.{Str, codes, str_dec}

-- Version
unfoldable pub version : Str
unfolding codes
version = codes "kruise-agents-nfs-csi.zhida/v1alpha1"

pub record MountRequest : Type 0 where
  pub api_version : Str
  pub driver_name : Str
  pub namespace : Str
  pub pod_name : Str
  pub pod_uid : Str
  pub pv_name : Str
  pub source_sub_path : Str
  pub target_path : Str
  pub container_name : Str

unfoldable pub MountRequest-discrete : Discrete MountRequest
unfolding str_dec
MountRequest-discrete = hlevel str_dec

instance abbrev pub request_eq : Eq MountRequest
request_eq = record { dec = MountRequest-discrete }

pub record MountResult : Type 0 where
  pub mounted : Bool
  pub driver_name : Str
  pub pv_name : Str
  pub source_sub_path : Str
  pub target_path : Str
  pub container_name : Str

pub record UnmountRequest : Type 0 where
  pub api_version : Str
  pub driver_name : Str
  pub namespace : Str
  pub pod_name : Str
  pub pod_uid : Str
  pub pv_name : Str
  pub target_path : Str
  pub container_name : Str

pub record UnmountResult : Type 0 where
  pub unmounted : Bool
  pub driver_name : Str
  pub pv_name : Str
  pub target_path : Str
  pub container_name : Str
