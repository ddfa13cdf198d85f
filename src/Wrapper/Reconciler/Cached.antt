-- ===== src/Wrapper/Reconciler/Cached.antt =====
-- internal/wrapper/reconciler.go over internal/kube/informer.go: what the cache leaves out of a pod
-- is not missed.
use kruise_agents_nfs_csi.Prelude.{◌≡◌, refl, ap, true, List, [], ◌∷◌, map, any, arith}
use kruise_agents_nfs_csi.Go.Text.{Str, str_eq}
use kruise_agents_nfs_csi.Go.Errors.{Result, ok, err}
use kruise_agents_nfs_csi.Go.Exec.{continue}
use kruise_agents_nfs_csi.Api.{MountRequest}
use kruise_agents_nfs_csi.Kube.{
  Pod, Container, EnvVar, ContainerStatus, PersistentVolume, CsiPersistentVolumeSource,
}
use kruise_agents_nfs_csi.Kube.Informer.{
  trim_env, trim_container, trim_status, trim_pod_for_informer_cache,
}
use kruise_agents_nfs_csi.Wrapper.Authz.{
  validate_pod_identity, validate_pod_node, authorize_pv_for_pod,
}
use kruise_agents_nfs_csi.Wrapper.Authz.Plan.{build_mount_plan}
use kruise_agents_nfs_csi.Wrapper.Server.Admission.{normalize_mount_request, mount_plan_for_pod}
use kruise_agents_nfs_csi.Wrapper.Authz.Containers.{
  marks_main, main_container_name, status_by_name, only_status, select_container_status,
}
use kruise_agents_nfs_csi.Wrapper.Desired.{DesiredMount}
use kruise_agents_nfs_csi.Wrapper.Server.Base.{Server, World}
use kruise_agents_nfs_csi.Wrapper.Reconciler.{
  locate, reconcile_located, reconcile_current, reconcile_mount_for_pod,
}

any-trim_env : (envs : List EnvVar) → any marks_main (trim_env envs) ≡ any marks_main envs
unfolding any trim_env marks_main
any-trim_env [] = refl
any-trim_env (env ∷ envs) = ground (arith, any-trim_env envs)

main_container_name-trim :
    (containers : List Container)
    → main_container_name (map trim_container containers) ≡ main_container_name containers
unfolding main_container_name trim_container
main_container_name-trim [] = refl
main_container_name-trim (container ∷ containers) =
    ground (arith, any-trim_env container.env, main_container_name-trim containers)

-- A chosen status, as the cache keeps it.
abbrev trimmed : Result ContainerStatus → Result ContainerStatus
trimmed (ok status) = ok (trim_status status)
trimmed (err e) = err e

status_by_name-trim :
    (statuses : List ContainerStatus) (name : Str)
    → status_by_name (map trim_status statuses) name ≡ trimmed (status_by_name statuses name)
unfolding status_by_name trim_status
status_by_name-trim [] name = refl
status_by_name-trim (status ∷ statuses) name = ground (arith, status_by_name-trim statuses name)

only_status-trim :
    (statuses : List ContainerStatus)
    → only_status (map trim_status statuses) ≡ trimmed (only_status statuses)
unfolding only_status trim_status
only_status-trim [] = refl
only_status-trim (status ∷ []) = ground arith
only_status-trim (status ∷ next ∷ statuses) = refl

select_container_status-trim :
    (pod : Pod) (name : Str)
    → select_container_status (trim_pod_for_informer_cache pod) name
      ≡ trimmed (select_container_status pod name)
unfolding select_container_status trim_pod_for_informer_cache
select_container_status-trim pod name = ground (
  arith,
  main_container_name-trim pod.spec.containers,
  only_status-trim pod.status.container_statuses,
  status_by_name-trim pod.status.container_statuses name,
  status_by_name-trim pod.status.container_statuses (main_container_name pod.spec.containers),
)

identity-trim :
    (pod : Pod) (request : MountRequest)
    → validate_pod_identity (trim_pod_for_informer_cache pod) request
      ≡ validate_pod_identity pod request
unfolding validate_pod_identity trim_pod_for_informer_cache
identity-trim pod request = refl

node-trim :
    (pod : Pod) (node : Str)
    → validate_pod_node (trim_pod_for_informer_cache pod) node ≡ validate_pod_node pod node
unfolding validate_pod_node trim_pod_for_informer_cache
node-trim pod node = refl

grants-trim :
    (driver : Str) (pod : Pod) (pv : PersistentVolume)
    → authorize_pv_for_pod driver (trim_pod_for_informer_cache pod) pv
      ≡ authorize_pv_for_pod driver pod pv
unfolding authorize_pv_for_pod trim_pod_for_informer_cache
grants-trim driver pod pv = refl

plan-trim :
    (request : MountRequest) (pod : Pod) (pv : PersistentVolume) (csi : CsiPersistentVolumeSource)
    (id : Str)
    → build_mount_plan request (trim_pod_for_informer_cache pod) pv csi id
      ≡ build_mount_plan request pod pv csi id
unfolding build_mount_plan trim_pod_for_informer_cache
plan-trim request pod pv csi id = refl

-- What the reconciler reads of a located container.
abbrev located_trim :
    Result (MountRequest × ContainerStatus) → Result (MountRequest × ContainerStatus)
located_trim (ok (request, status)) = ok (request, trim_status status)
located_trim (err e) = err e

module _ {S N : Type 0} (s : Server S N) where
  -- The checks behind the request's own, on the cached pod and on the live one.
  locate-trim :
      (current : DesiredMount) (pod : Pod)
      → locate s current (trim_pod_for_informer_cache pod) ≡ located_trim (locate s current pod)
  unfolding locate trim_status
  locate-trim current pod = go (normalize_mount_request s current.request true) refl
    where
      go :
          (r : Result MountRequest)
          → normalize_mount_request s current.request true ≡ r
          → locate s current (trim_pod_for_informer_cache pod) ≡ located_trim (locate s current pod)
      go (err e) re = ground arith
      go (ok r) re = ground (
        arith,
        re,
        identity-trim pod r,
        node-trim pod s.cfg.node_name,
        select_container_status-trim pod r.container_name,
      )

  mount_plan-trim :
      (request : MountRequest) (pod : Pod)
      → mount_plan_for_pod s request (trim_pod_for_informer_cache pod)
        ≡ mount_plan_for_pod s request pod
  unfolding mount_plan_for_pod trim_status
  mount_plan-trim request pod = go (s.kube.get_persistent_volume request.pv_name) refl
    where
      chosen :
          (pv : PersistentVolume) (csi : CsiPersistentVolumeSource)
          → s.kube.get_persistent_volume request.pv_name ≡ ok pv
          → authorize_pv_for_pod s.cfg.driver_name pod pv ≡ ok csi
          → (c : Result ContainerStatus) → select_container_status pod request.container_name ≡ c
          → mount_plan_for_pod s request (trim_pod_for_informer_cache pod)
            ≡ mount_plan_for_pod s request pod
      chosen pv csi f a (err e) ce = ground (
        arith,
        grants-trim s.cfg.driver_name pod pv,
        select_container_status-trim pod request.container_name,
      )
      chosen pv csi f a (ok status) ce = ground (
        arith,
        grants-trim s.cfg.driver_name pod pv,
        select_container_status-trim pod request.container_name,
        plan-trim (record request { container_name = status.name }) pod pv csi status.container_id,
      )

      granted :
          (pv : PersistentVolume)
          → s.kube.get_persistent_volume request.pv_name ≡ ok pv
          → (a : Result CsiPersistentVolumeSource)
          → authorize_pv_for_pod s.cfg.driver_name pod pv ≡ a
          → mount_plan_for_pod s request (trim_pod_for_informer_cache pod)
            ≡ mount_plan_for_pod s request pod
      granted pv f (err e) ae = ground (arith, grants-trim s.cfg.driver_name pod pv)
      granted pv f (ok csi) ae =
          chosen pv csi f ae (select_container_status pod request.container_name) refl

      go :
          (r : Result PersistentVolume)
          → s.kube.get_persistent_volume request.pv_name ≡ r
          → mount_plan_for_pod s request (trim_pod_for_informer_cache pod)
            ≡ mount_plan_for_pod s request pod
      go (err e) re = ground arith
      go (ok pv) re = granted pv re (authorize_pv_for_pod s.cfg.driver_name pod pv) refl

  located-trim :
      (current : DesiredMount) (pod : Pod) (request : MountRequest) (status : ContainerStatus)
      → reconcile_located s current (trim_pod_for_informer_cache pod) (request, trim_status status)
        ≡ reconcile_located s current pod (request, status)
  unfolding reconcile_located trim_status
  located-trim current pod request status = rw (mount_plan-trim request pod) refl

  current-trim :
      (current : DesiredMount) (pod : Pod) (w : World S N)
      → reconcile_current s current (trim_pod_for_informer_cache pod) w
        ≡ reconcile_current s current pod w
  unfolding reconcile_current
  current-trim current pod w = rw (locate-trim current pod) (go (locate s current pod))
    where
      go :
          (r : Result (MountRequest × ContainerStatus))
          → continue
              (located_trim r)
              (reconcile_located s current (trim_pod_for_informer_cache pod))
              w
            ≡ continue r (reconcile_located s current pod) w
      go (err e) = refl
      go (ok (request, status)) = ap (λ run. run w) (located-trim current pod request status)

  -- For a pod from the informer's cache, which keeps only part of a pod, the reconciler does and
  -- answers exactly what it does for the whole pod.
  pub reconcile_mount_for_pod-trim :
      (snapshot : DesiredMount) (pod : Pod) (w : World S N)
      → reconcile_mount_for_pod s snapshot (trim_pod_for_informer_cache pod) w
        ≡ reconcile_mount_for_pod s snapshot pod w
  unfolding reconcile_mount_for_pod
  reconcile_mount_for_pod-trim snapshot pod w = rw (current-trim snapshot pod w) refl
