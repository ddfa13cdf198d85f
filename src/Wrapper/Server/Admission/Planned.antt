-- ===== src/Wrapper/Server/Admission/Planned.antt =====
-- mountPlanForPod and authorizedMountPlan of internal/wrapper/server.go: where a plan comes from.
use kruise_agents_nfs_csi.Prelude.{◌≡◌, ◌≢◌, refl, true, [], arith}
use kruise_agents_nfs_csi.Go.Text.{Str, str_eq}
use kruise_agents_nfs_csi.Go.Errors.{Result, ok, err}
use kruise_agents_nfs_csi.Api.{MountRequest}
use kruise_agents_nfs_csi.Kube.{Pod, PersistentVolume, ContainerStatus, CsiPersistentVolumeSource}
use kruise_agents_nfs_csi.Node.{MountPlan}
use kruise_agents_nfs_csi.Node.NfsPath.{normalize_nfs_sub_dir}
use kruise_agents_nfs_csi.Wrapper.Authz.{authorize_pv_for_pod}
use kruise_agents_nfs_csi.Wrapper.Authz.Annotations.{Grants, authorize_pv_for_pod-Grants}
use kruise_agents_nfs_csi.Wrapper.Authz.Containers.{select_container_status}
use kruise_agents_nfs_csi.Wrapper.Authz.Plan.{build_mount_plan, server_of, share_of, sub_dir_of}
use kruise_agents_nfs_csi.Wrapper.Server.Base.{Server}
use kruise_agents_nfs_csi.Wrapper.Server.Admission.{
  normalize_mount_request, authorized_pod_for_request, mount_plan_for_pod, authorized_mount_plan,
}
use kruise_agents_nfs_csi.Wrapper.Server.Admission.Normal.{
  IsNormalOf, normalize_mount_request-IsNormalOf,
}
use kruise_agents_nfs_csi.Wrapper.Server.Admission.Sound.{MayAct, authorized_pod-MayAct}

-- The plan mounts the volume's NFS source, at the request's paths, in the pod's container.
pub record IsPlan (request : MountRequest) (pod : Pod) (pv : PersistentVolume)
    (csi : CsiPersistentVolumeSource) (container_id : Str) (plan : MountPlan) : Type 0 where
  pub volume : plan.pv.name ≡ pv.metadata.name
  pub server : plan.pv.server ≡ server_of csi.volume_attributes
  pub server_ne_nil : plan.pv.server ≢ []
  pub share : plan.pv.share ≡ share_of csi.volume_attributes
  pub share_ne_nil : plan.pv.share ≢ []
  pub sub_dir : normalize_nfs_sub_dir (sub_dir_of csi.volume_attributes) ≡ ok plan.pv.sub_dir
  pub pod_uid : plan.pod_uid ≡ pod.metadata.uid
  pub container : plan.container_id ≡ container_id
  pub source_sub_path : plan.source_sub_path ≡ request.source_sub_path
  pub target_path : plan.target_path ≡ request.target_path

pub build_mount_plan-IsPlan :
    (request : MountRequest) (pod : Pod) (pv : PersistentVolume) (csi : CsiPersistentVolumeSource)
    (container_id : Str) (plan : MountPlan)
    → build_mount_plan request pod pv csi container_id ≡ ok plan
    → IsPlan request pod pv csi container_id plan
unfolding build_mount_plan
build_mount_plan-IsPlan request pod pv csi container_id plan h = ground arith

module _ {S N : Type 0} (s : Server S N) where
  -- The volume that the request names grants its use to the pod, and the container is one of the
  -- pod's.
  pub record IsPlanned (request named : MountRequest) (pod : Pod) (plan : MountPlan) : Type 0 where
    pub pv : PersistentVolume
    pub csi : CsiPersistentVolumeSource
    pub container : ContainerStatus
    pub found : s.kube.get_persistent_volume request.pv_name ≡ ok pv
    pub grants : Grants s.cfg.driver_name pod pv csi
    pub chosen : select_container_status pod request.container_name ≡ ok container
    pub named_eq : named ≡ record request { container_name = container.name }
    pub built : IsPlan named pod pv csi container.container_id plan

  planned-checks :
      (request named : MountRequest) (pod : Pod) (plan : MountPlan) (pv : PersistentVolume)
      (csi : CsiPersistentVolumeSource) (container : ContainerStatus)
      → mount_plan_for_pod s request pod ≡ ok (named, plan)
      → s.kube.get_persistent_volume request.pv_name ≡ ok pv
      → authorize_pv_for_pod s.cfg.driver_name pod pv ≡ ok csi
      → select_container_status pod request.container_name ≡ ok container
      → (named ≡ record request { container_name = container.name })
        × (build_mount_plan
              (record request { container_name = container.name })
              pod
              pv
              csi
              container.container_id
            ≡ ok plan)
  unfolding mount_plan_for_pod
  planned-checks request named pod plan pv csi container h f a c = ground arith

  pub mount_plan_for_pod-IsPlanned :
      (request named : MountRequest) (pod : Pod) (plan : MountPlan)
      → mount_plan_for_pod s request pod ≡ ok (named, plan)
      → IsPlanned request named pod plan
  unfolding mount_plan_for_pod
  mount_plan_for_pod-IsPlanned request named pod plan h =
      go (s.kube.get_persistent_volume request.pv_name) refl
    where
      chosen :
          (pv : PersistentVolume) (csi : CsiPersistentVolumeSource)
          → s.kube.get_persistent_volume request.pv_name ≡ ok pv
          → authorize_pv_for_pod s.cfg.driver_name pod pv ≡ ok csi
          → (c : Result ContainerStatus) → select_container_status pod request.container_name ≡ c
          → IsPlanned request named pod plan
      chosen pv csi f a (err e) ce = absurd (ground arith)
      chosen pv csi f a (ok container) ce =
          let (n, b) = planned-checks request named pod plan pv csi container h f a ce in
          record {
            pv = pv;
            csi = csi;
            container = container;
            found = f;
            grants = authorize_pv_for_pod-Grants s.cfg.driver_name pod pv csi a;
            chosen = ce;
            named_eq = n;
            built = build_mount_plan-IsPlan named pod pv csi container.container_id plan (rw n b);
          }

      granted :
          (pv : PersistentVolume)
          → s.kube.get_persistent_volume request.pv_name ≡ ok pv
          → (a : Result CsiPersistentVolumeSource)
          → authorize_pv_for_pod s.cfg.driver_name pod pv ≡ a
          → IsPlanned request named pod plan
      granted pv f (err e) ae = absurd (ground arith)
      granted pv f (ok csi) ae =
          chosen pv csi f ae (select_container_status pod request.container_name) refl

      go :
          (r : Result PersistentVolume)
          → s.kube.get_persistent_volume request.pv_name ≡ r
          → IsPlanned request named pod plan
      go (err e) re = absurd (ground arith)
      go (ok pv) re = granted pv re (authorize_pv_for_pod s.cfg.driver_name pod pv) refl

  -- Everything that an admitted mount request has passed.
  pub record IsAdmitted (token : Str) (raw request : MountRequest) (plan : MountPlan) : Type 0 where
    pub normal : MountRequest
    pub pod : Pod
    pub is_normal : IsNormalOf s.cfg.driver_name raw normal
    pub may_act : MayAct s token normal pod
    pub planned : IsPlanned normal request pod plan

  -- A request that is authorized has passed every check: its shape and paths, the token's binding to
  -- the live pod, the volume's grants to that pod, and the choice of the container; and the plan
  -- names what these checks have found.
  pub authorized_mount_plan-IsAdmitted :
      (token : Str) (raw request : MountRequest) (plan : MountPlan)
      → authorized_mount_plan s token raw true ≡ ok (request, plan)
      → IsAdmitted token raw request plan
  unfolding authorized_mount_plan
  authorized_mount_plan-IsAdmitted token raw request plan h =
      go (normalize_mount_request s raw true) refl
    where
      acts :
          (normal : MountRequest)
          → normalize_mount_request s raw true ≡ ok normal
          → (p : Result Pod) → authorized_pod_for_request s token normal ≡ p
          → IsAdmitted token raw request plan
      acts normal n (err e) pe = absurd (ground arith)
      acts normal n (ok pod) pe = record {
        normal = normal;
        pod = pod;
        is_normal = normalize_mount_request-IsNormalOf s raw normal n;
        may_act = authorized_pod-MayAct s token normal pod pe;
        planned = mount_plan_for_pod-IsPlanned normal request pod plan (ground arith);
      }

      go :
          (r : Result MountRequest)
          → normalize_mount_request s raw true ≡ r
          → IsAdmitted token raw request plan
      go (err e) re = absurd (ground arith)
      go (ok normal) re = acts normal re (authorized_pod_for_request s token normal) refl
