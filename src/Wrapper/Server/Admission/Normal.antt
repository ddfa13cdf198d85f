-- ===== src/Wrapper/Server/Admission/Normal.antt =====
-- normalizeMountRequest of internal/wrapper/server.go: what it returns, and that doing it again
-- changes nothing.
use kruise_agents_nfs_csi.Prelude.{◌≡◌, ◌≢◌, true, [], arith, ap}
use kruise_agents_nfs_csi.Go.Text.{Str, str_eq, has_prefix}
use kruise_agents_nfs_csi.Go.Clean.{is_abs}
use kruise_agents_nfs_csi.Go.Errors.{ok}
use kruise_agents_nfs_csi.Api.{MountRequest, version}
use kruise_agents_nfs_csi.Security.TargetPath.{validate_target_path}
use kruise_agents_nfs_csi.Security.TargetPath.Checked.{
  validate_target_path_idem, validate_target_path-IsAllowed,
}
use kruise_agents_nfs_csi.Security.SubPath.{validate_source_sub_path}
use kruise_agents_nfs_csi.Security.SubPath.Checked.{validate_source_sub_path_idem}
use kruise_agents_nfs_csi.Wrapper.Authz.{validate_request_shape}
use kruise_agents_nfs_csi.Wrapper.Server.Base.{Server}
use kruise_agents_nfs_csi.Wrapper.Server.Admission.{normalize_mount_request}

-- A request that states all that is required.
pub record IsComplete (driver : Str) (r : MountRequest) : Type 0 where
  pub api : r.api_version ≡ version
  pub driver_name : r.driver_name ≡ driver
  pub namespace : r.namespace ≢ []
  pub pod_name : r.pod_name ≢ []
  pub pod_uid : r.pod_uid ≢ []
  pub pv_name : r.pv_name ≢ []
  pub target_path : r.target_path ≢ []

pub validate_request_shape-IsComplete :
    (driver : Str) (r : MountRequest)
    → validate_request_shape driver r ≡ ok tt
    → IsComplete driver r
unfolding validate_request_shape
validate_request_shape-IsComplete driver r h = ground arith

IsComplete-validate_request_shape :
    (driver : Str) (r : MountRequest)
    → IsComplete driver r
    → validate_request_shape driver r ≡ ok tt
unfolding validate_request_shape
IsComplete-validate_request_shape driver r h = ground arith

-- The request r is the raw one with its two paths in checked form.
pub record IsNormalOf (driver : Str) (raw r : MountRequest) : Type 0 where
  pub complete : IsComplete driver raw
  pub target : validate_target_path raw.target_path ≡ ok r.target_path
  pub sub_path : validate_source_sub_path raw.source_sub_path ≡ ok r.source_sub_path
  pub rest : r ≡ record raw { target_path = r.target_path; source_sub_path = r.source_sub_path }

pub normalize_mount_request-IsNormalOf :
    {S N : Type 0} (s : Server S N) (raw r : MountRequest)
    → normalize_mount_request s raw true ≡ ok r
    → IsNormalOf s.cfg.driver_name raw r
unfolding normalize_mount_request
normalize_mount_request-IsNormalOf s raw r h =
    ground (arith, validate_request_shape-IsComplete s.cfg.driver_name raw)

target-ne-nil : (t c : Str) → validate_target_path t ≡ ok c → t ≢ []
unfolding is_abs has_prefix
target-ne-nil t c h e = cc ((validate_target_path-IsAllowed t c h).absolute, ap is_abs e)

IsComplete-IsNormalOf :
    (driver : Str) (raw r : MountRequest) → IsNormalOf driver raw r → IsComplete driver r
IsComplete-IsNormalOf driver raw r h =
    let t =
      target-ne-nil r.target_path r.target_path
        (validate_target_path_idem raw.target_path r.target_path h.target) in
    ground (arith, h.rest, t)

normalize_complete :
    {S N : Type 0} (s : Server S N) (r : MountRequest)
    → IsComplete s.cfg.driver_name r
    → validate_target_path r.target_path ≡ ok r.target_path
    → validate_source_sub_path r.source_sub_path ≡ ok r.source_sub_path
    → normalize_mount_request s r true ≡ ok r
unfolding normalize_mount_request
normalize_complete s r c t p = rw (IsComplete-validate_request_shape s.cfg.driver_name r c, t, p)

-- A normalized request, with whatever container the server has chosen, normalizes to itself.
pub normalize_mount_request_idem :
    {S N : Type 0} (s : Server S N) (raw r : MountRequest) (container : Str)
    → normalize_mount_request s raw true ≡ ok r
    → normalize_mount_request s (record r { container_name = container }) true
      ≡ ok (record r { container_name = container })
normalize_mount_request_idem s raw r container h =
    let n = normalize_mount_request-IsNormalOf s raw r h in
    let c = IsComplete-IsNormalOf s.cfg.driver_name raw r n in
    normalize_complete s (record r { container_name = container })
      (record {
        api = c.api;
        driver_name = c.driver_name;
        namespace = c.namespace;
        pod_name = c.pod_name;
        pod_uid = c.pod_uid;
        pv_name = c.pv_name;
        target_path = c.target_path;
      })
      (validate_target_path_idem raw.target_path r.target_path n.target)
      (validate_source_sub_path_idem raw.source_sub_path r.source_sub_path n.sub_path)
