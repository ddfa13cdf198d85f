-- ===== src/Wrapper/Server/Admission.antt =====
-- internal/wrapper/server.go: what a request must pass before the server changes anything.
pub mod Normal
pub mod Sound
pub mod Planned
use kruise_agents_nfs_csi.Prelude.{Bool, true, false, [], ◌∷◌, List, Option, if◌then◌else◌}
use kruise_agents_nfs_csi.Go.Text.{Str}
use kruise_agents_nfs_csi.Go.Errors.{
  Err, Result, ok, err, sentinel, bad_request, annotate, wrap, ◌>>=◌, ◌>>◌, map_err,
}
use kruise_agents_nfs_csi.Api.{MountRequest}
use kruise_agents_nfs_csi.Kube.{Pod, PersistentVolume, ContainerStatus, TokenReviewStatus}
use kruise_agents_nfs_csi.Node.{MountPlan}
use kruise_agents_nfs_csi.Security.TargetPath.{validate_target_path}
use kruise_agents_nfs_csi.Security.SubPath.{validate_source_sub_path}
use kruise_agents_nfs_csi.Wrapper.Authz.{
  validate_request_shape, authorize_token, authorize_pod, validate_pod_node, authorize_pv_for_pod,
}
use kruise_agents_nfs_csi.Wrapper.Authz.Containers.{select_container_status}
use kruise_agents_nfs_csi.Wrapper.Authz.Plan.{build_mount_plan}
use kruise_agents_nfs_csi.Wrapper.Server.Base.{Server}

-- fmt.Errorf("%w: %v", errBadRequest, err)
abbrev pub as_bad_request : Err → Err
as_bad_request e = annotate (sentinel bad_request) e

module _ {S N : Type 0} (s : Server S N) where
  unfoldable pub normalize_sub_path : MountRequest → Bool → Result MountRequest
  normalize_sub_path request false = ok (record request { source_sub_path = [] })
  normalize_sub_path request true = do
    clean ← map_err as_bad_request (validate_source_sub_path request.source_sub_path)
    ok (record request { source_sub_path = clean })

  -- normalizeMountRequest
  unfoldable pub normalize_mount_request : MountRequest → Bool → Result MountRequest
  unfolding normalize_sub_path
  normalize_mount_request request validate_sub_path = do
    validate_request_shape s.cfg.driver_name request
    clean_target ← map_err as_bad_request (validate_target_path request.target_path)
    normalize_sub_path (record request { target_path = clean_target }) validate_sub_path

  -- authorizedPodForRequest
  unfoldable pub authorized_pod_for_request : Str → MountRequest → Result Pod
  authorized_pod_for_request token request = do
    reviewed ←
        map_err (wrap "token review failed") (s.kube.review_token token (s.cfg.token_audience ∷ []))
    status ← authorize_token reviewed request.namespace s.cfg.token_audience
    pod ← map_err (wrap "get pod") (s.kube.get_pod request.namespace request.pod_name)
    authorize_pod status pod request
    validate_pod_node pod s.cfg.node_name
    ok pod

  -- mountPlanForPod
  unfoldable pub mount_plan_for_pod : MountRequest → Pod → Result (MountRequest × MountPlan)
  mount_plan_for_pod request pod = do
    pv ← map_err (wrap "get pv") (s.kube.get_persistent_volume request.pv_name)
    csi ← authorize_pv_for_pod s.cfg.driver_name pod pv
    status ← map_err as_bad_request (select_container_status pod request.container_name)
    let named = record request { container_name = status.name }
    plan ← build_mount_plan named pod pv csi status.container_id
    ok (named, plan)

  -- authorizedMountPlan
  unfoldable pub authorized_mount_plan :
      Str → MountRequest → Bool → Result (MountRequest × MountPlan)
  authorized_mount_plan token raw validate_sub_path = do
    request ← normalize_mount_request raw validate_sub_path
    pod ← authorized_pod_for_request token request
    mount_plan_for_pod request pod
