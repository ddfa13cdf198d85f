-- ===== src/Wrapper/Server/Unmount.antt =====
-- internal/wrapper/server.go: unmount. The part under the target's lock is one step.
pub mod Outcomes
use kruise_agents_nfs_csi.Prelude.{
  Bool, true, false, not, ◌||◌, [], Option, none, some, ◌==◌, if◌then◌else◌,
}
use kruise_agents_nfs_csi.Go.Text.{Str, str_eq}
use kruise_agents_nfs_csi.Go.Errors.{
  Err, Result, ok, err, sentinel, bad_request, node_operation, wrap, map_err,
}
use kruise_agents_nfs_csi.Go.Errors
use kruise_agents_nfs_csi.Go.Exec.{Exec, pure, raise, lift, attempt, on_error, ◌>>=◌, ◌>>◌}
use kruise_agents_nfs_csi.Api.{MountRequest, UnmountRequest, UnmountResult}
use kruise_agents_nfs_csi.Kube.{Pod, ContainerStatus}
use kruise_agents_nfs_csi.Node.{MountPlan}
use kruise_agents_nfs_csi.Wrapper.Authz.Containers.{select_container_status}
use kruise_agents_nfs_csi.Wrapper.Desired.{DesiredMount, MountKey, key, mount_key_for}
use kruise_agents_nfs_csi.Wrapper.Server.Base.{Server, World, get, delete, node_unmount, is_mounted}
use kruise_agents_nfs_csi.Wrapper.Server.Admission.{
  as_bad_request, normalize_mount_request, authorized_pod_for_request,
}
use kruise_agents_nfs_csi.Wrapper.Server.Mount.{roll_back}

-- The mount request with which unmount runs the shared checks.
unfoldable pub as_mount_request : UnmountRequest → MountRequest
as_mount_request request = record {
  api_version = request.api_version;
  driver_name = request.driver_name;
  namespace = request.namespace;
  pod_name = request.pod_name;
  pod_uid = request.pod_uid;
  pv_name = request.pv_name;
  source_sub_path = [];
  target_path = request.target_path;
  container_name = request.container_name;
}

unfoldable pub unmount_result : Str → MountRequest → UnmountResult
unmount_result driver_name request = record {
  unmounted = true;
  driver_name = driver_name;
  pv_name = request.pv_name;
  target_path = request.target_path;
  container_name = request.container_name;
}

-- The plan of an unmount names no NFS source.
unfoldable pub unmount_plan : MountRequest → Pod → ContainerStatus → MountPlan
unmount_plan request pod status = record {
  pv = record {
    name = request.pv_name;
    volume_handle = [];
    server = [];
    share = [];
    sub_dir = [];
    mount_options = [];
  };
  pod_uid = pod.metadata.uid;
  container_name = status.name;
  container_id = status.container_id;
  source_sub_path = [];
  target_path = request.target_path;
}

module _ {S N : Type 0} (s : Server S N) where
  -- The checks: the request names a running pod of this node, and one of its containers.
  unfoldable pub authorized_unmount :
      Str → UnmountRequest → Result (MountRequest × Pod × ContainerStatus)
  authorized_unmount token raw =
      Errors.◌>>=◌ (normalize_mount_request s (as_mount_request raw) false) (λ request.
        Errors.◌>>=◌ (authorized_pod_for_request s token request) (λ pod.
          Errors.◌>>=◌ (map_err as_bad_request (select_container_status pod request.container_name))
            (λ status. ok (record request { container_name = status.name }, pod, status))))

  -- The call of the node, made only if the target is a mount point.
  unmount_if : MountPlan → Bool → Exec (World S N) (Unit {0})
  unmount_if plan false = pure tt
  unmount_if plan true = node_unmount s plan

  finish_unmount : MountRequest → DesiredMount → Result (Unit {0}) → Exec (World S N) UnmountResult
  finish_unmount request previous (err e) = roll_back s (mount_key_for request) (some previous) e
  finish_unmount request previous (ok _) = pure (unmount_result s.cfg.driver_name request)

  -- The intent is bound to this container: it is deleted first, and put back if the node fails.
  unfoldable pub apply_unmount :
      MountRequest → MountPlan → DesiredMount → Exec (World S N) UnmountResult
  unfolding unmount_if finish_unmount
  apply_unmount request plan previous = do
    on_error (wrap "delete desired mount") (delete s (mount_key_for request))
    outcome ← attempt (is_mounted s plan >>= λ mounted. unmount_if plan mounted)
    finish_unmount request previous outcome

  -- The intent was never mounted, or in a container that is gone: it is dropped.
  unfoldable pub drop_stale : MountRequest → Exec (World S N) UnmountResult
  drop_stale request = do
    on_error (wrap "delete stale desired mount") (delete s (mount_key_for request))
    pure (unmount_result s.cfg.driver_name request)

  -- unmount, from the lock on
  unfoldable pub unmount_found :
      MountRequest → Pod → ContainerStatus → Option DesiredMount → Exec (World S N) UnmountResult
  unmount_found request pod status none = pure (unmount_result s.cfg.driver_name request)
  unmount_found request pod status (some previous) =
      if not (previous.request.pv_name == request.pv_name)
      then raise (wrap "target path is registered for another pv" (sentinel bad_request))
      else if previous.container_id == [] || not (previous.container_id == status.container_id)
      then drop_stale request
      else apply_unmount request (unmount_plan request pod status) previous

  unfoldable pub unmount_locked :
      MountRequest → Pod → ContainerStatus → Exec (World S N) UnmountResult
  unmount_locked request pod status w =
      unmount_found request pod status (get s (mount_key_for request) w) w

  -- unmount
  unfoldable pub unmount : Str → UnmountRequest → Exec (World S N) UnmountResult
  unmount token raw = do
    (request, pod, status) ← lift (authorized_unmount token raw)
    unmount_locked request pod status
