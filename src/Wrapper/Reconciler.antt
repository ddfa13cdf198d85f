-- ===== src/Wrapper/Reconciler.antt =====
-- internal/wrapper/reconciler.go: stored intents are mounted again in restarted containers, and
-- dropped when their pod is gone. What is logged is left out.
pub mod Remount
pub mod Renewed
pub mod Results
pub mod Retries
pub mod Sweeps
pub mod Cached
use kruise_agents_nfs_csi.Prelude.{
  String, Bool, true, false, not, ◌&&◌, ◌||◌, [], Option, none, some, ◌==◌, bool_eq, if◌then◌else◌,
}
use kruise_agents_nfs_csi.Go.Text.{Str, str_eq}
use kruise_agents_nfs_csi.Go.Errors.{
  Err, Result, ok, err, sentinel, desired_mount_stale, desired_mount_unauthorized, not_found, is,
  annotate, text, wrap, map_err, fail_if,
}
use kruise_agents_nfs_csi.Go.Exec.{Exec, pure, raise, lift, attempt, on_error, ◌>>=◌, ◌>>◌}
use kruise_agents_nfs_csi.Api.{MountRequest}
use kruise_agents_nfs_csi.Kube.{Pod, ContainerStatus}
use kruise_agents_nfs_csi.Node.{MountPlan}
use kruise_agents_nfs_csi.Node.NfsPath.{is_nfs_export_root}
use kruise_agents_nfs_csi.Wrapper.Authz.{validate_pod_identity, validate_pod_node}
use kruise_agents_nfs_csi.Wrapper.Authz.Containers.{select_container_status}
use kruise_agents_nfs_csi.Wrapper.Desired.{DesiredMount, MountKey, key, desired_eq}
use kruise_agents_nfs_csi.Wrapper.RootAuth.{ExportRootAuthorizer, authorizes_fingerprint}
use kruise_agents_nfs_csi.Wrapper.Server.Base.{
  Server, World, get, put, delete, node_mount, is_mounted,
}
use kruise_agents_nfs_csi.Wrapper.Server.Admission.{normalize_mount_request, mount_plan_for_pod}

-- fmt.Errorf("%w: %v", errDesiredMountStale, err)
abbrev pub as_stale : Err → Err
as_stale e = annotate (sentinel desired_mount_stale) e

abbrev unauthorized : String → Err
unauthorized message = wrap message (sentinel desired_mount_unauthorized)

-- The export-root decision of version 1 state is taken now; that of later state must still hold.
unfoldable pub classify : ExportRootAuthorizer → DesiredMount → Bool → Result DesiredMount
classify root current is_export_root =
    if current.legacy_root_classification_unknown
    then (if is_export_root && root.configured
        then err (
            unauthorized
              "legacy desired mount has no authorization from the current NFS export root key")
        else ok (record current {
          export_root_authorized = is_export_root;
          export_root_key_fingerprint = [];
          legacy_root_classification_unknown = false;
        }))
    else if not (current.export_root_authorized == is_export_root)
    then err (unauthorized "effective NFS export-root selection differs from the persisted mount")
    else ok current

-- The fingerprint must be that of the current key, where one is asked for; elsewhere it is dropped.
unfoldable pub refresh_fingerprint :
    ExportRootAuthorizer → DesiredMount → Bool → Result DesiredMount
refresh_fingerprint root current is_export_root =
    if is_export_root
      && root.configured
      && not (authorizes_fingerprint root current.export_root_key_fingerprint)
    then err
        (unauthorized "desired mount has no authorization from the current NFS export root key")
    else if not is_export_root || not root.configured
    then ok (record current { export_root_key_fingerprint = [] })
    else ok current

-- Both, for the plan that the volume gives now.
unfoldable pub reauthorize : ExportRootAuthorizer → DesiredMount → MountPlan → Result DesiredMount
unfolding classify refresh_fingerprint
reauthorize root current plan = elim (classify root current (is_nfs_export_root plan)) [
  | err e ↦ err e
  | ok classified ↦ refresh_fingerprint root classified (is_nfs_export_root plan)
]

module _ {S N : Type 0} (s : Server S N) where
  -- The checks of the stored request against the pod, up to the pod's container.
  unfoldable pub locate : DesiredMount → Pod → Result (MountRequest × ContainerStatus)
  locate current pod = elim (normalize_mount_request s current.request true) [
    | err e ↦ err e
    | ok request ↦ elim (validate_pod_identity pod request) [
      | err e ↦ err (as_stale e)
      | ok _ ↦ elim (validate_pod_node pod s.cfg.node_name) [
        | err e ↦ err (as_stale e)
        | ok _ ↦ elim (select_container_status pod request.container_name) [
          | err e ↦ err (wrap "container status for desired mount" e)
          | ok status ↦ ok (record request { container_name = status.name }, status)
        ]
      ]
    ]
  ]

  record_container : DesiredMount → MountPlan → Exec (World S N) (Unit {0})
  record_container current plan =
      on_error (wrap "record reconciled container")
        (put s (record current { container_id = plan.container_id }))

  unfoldable pub remount : DesiredMount → MountPlan → Exec (World S N) (Unit {0})
  unfolding record_container
  remount current plan = node_mount s plan >> record_container current plan

  -- What the code does once it knows whether the target is mounted.
  unfoldable pub settle : DesiredMount → MountPlan → Bool → Exec (World S N) (Unit {0})
  unfolding record_container
  settle current plan false = remount current plan
  settle current plan true =
      if current.container_id == plan.container_id then pure tt else record_container current plan

  unfoldable pub mount_again : DesiredMount → MountPlan → Exec (World S N) (Unit {0})
  mount_again current plan =
      if current.container_id == [] || current.container_id == plan.container_id
      then (is_mounted s plan >>= λ mounted. settle current plan mounted)
      else remount current plan

  -- The part behind the plan: the current export-root policy first, then the mount.
  unfoldable pub reconcile_plan :
      DesiredMount → MountRequest × MountPlan → Exec (World S N) (Unit {0})
  reconcile_plan current (request, plan) = do
    refreshed ← lift (reauthorize s.export_root (record current { request = request }) plan)
    mount_again refreshed plan

  -- An intent that is bound to the pod's container needs nothing.
  unfoldable pub reconcile_located :
      DesiredMount → Pod → MountRequest × ContainerStatus → Exec (World S N) (Unit {0})
  reconcile_located current pod (request, status) =
      if not (current.container_id == []) && current.container_id == status.container_id
      then pure tt
      else (lift (mount_plan_for_pod s request pod) >>= reconcile_plan current)

  unfoldable pub reconcile_current : DesiredMount → Pod → Exec (World S N) (Unit {0})
  reconcile_current current pod = do
    located ← lift (locate current pod)
    reconcile_located current pod located

  unfoldable pub is_current : DesiredMount → Option DesiredMount → Bool
  is_current snapshot none = false
  is_current snapshot (some current) = current == snapshot

  -- reconcileMountForPod: nothing is done for an intent that has changed since the snapshot
  unfoldable pub reconcile_mount_for_pod : DesiredMount → Pod → Exec (World S N) (Unit {0})
  unfolding is_current
  reconcile_mount_for_pod snapshot pod w =
      if is_current snapshot (get s (key snapshot) w)
      then reconcile_current snapshot pod w
      else (ok tt, w)

  -- reconcileMount
  unfoldable pub reconcile_mount : DesiredMount → Exec (World S N) (Unit {0})
  reconcile_mount snapshot =
      elim (s.kube.get_pod snapshot.request.namespace snapshot.request.pod_name) [
        | ok pod ↦ reconcile_mount_for_pod snapshot pod
        | err e ↦
            if is not_found e
            then raise (wrap "pod no longer exists" (sentinel desired_mount_stale))
            else raise (wrap "get pod" e)
      ]

  -- handleReconcileResult: a stale intent is deleted, unless it has changed
  unfoldable pub handle_reconcile_result : DesiredMount → Result (Unit {0}) → World S N → World S N
  unfolding is_current
  handle_reconcile_result desired (ok _) w = w
  handle_reconcile_result desired (err e) w =
      if is desired_mount_stale e && is_current desired (get s (key desired) w)
      then (delete s (key desired) w).1
      else w
