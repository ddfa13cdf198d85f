-- ===== src/Wrapper/Server/Guards.antt =====
-- internal/wrapper/server.go: mount and unmount change nothing before their checks have passed.
use kruise_agents_nfs_csi.Prelude.{◌≡◌, ◌≢◌, ◌⊎◌, inl, inr, refl, true, false, [], arith}
use kruise_agents_nfs_csi.Go.Text.{Str, str_eq, trim_space}
use kruise_agents_nfs_csi.Go.Errors.{Err, Result, ok, err}
use kruise_agents_nfs_csi.Go.Exec.{continue}
use kruise_agents_nfs_csi.Api.{MountRequest, UnmountRequest}
use kruise_agents_nfs_csi.Kube.{Pod, ContainerStatus}
use kruise_agents_nfs_csi.Node.{MountPlan}
use kruise_agents_nfs_csi.Node.NfsPath.{is_nfs_export_root}
use kruise_agents_nfs_csi.Wrapper.Authz.Containers.{select_container_status}
use kruise_agents_nfs_csi.Wrapper.RootAuth.{ExportRootAuthorizer, authorize}
use kruise_agents_nfs_csi.Wrapper.Server.Base.{Server, World}
use kruise_agents_nfs_csi.Wrapper.Server.Admission.{
  authorized_mount_plan, normalize_mount_request, authorized_pod_for_request,
}
use kruise_agents_nfs_csi.Wrapper.Server.Admission.Sound.{MayAct, authorized_pod-MayAct}
use kruise_agents_nfs_csi.Wrapper.Server.Admission.Planned.{
  IsAdmitted, authorized_mount_plan-IsAdmitted,
}
use kruise_agents_nfs_csi.Wrapper.Server.Mount.{desired_for, mount_locked, mount}
use kruise_agents_nfs_csi.Wrapper.Server.Unmount.{
  as_mount_request, authorized_unmount, unmount_locked, unmount,
}

-- The key opens the export root, where the plan mounts that and a key is configured.
abbrev pub KeyFits : (Str → Str) → ExportRootAuthorizer → MountPlan → Str → Type 0
KeyFits sha256 root plan key =
    (is_nfs_export_root plan ≡ false)
    ⊎ (root.configured ≡ false)
    ⊎ (root.key_hash ≡ sha256 (trim_space key))

-- What is authorized fits the key, and is stamped with the configured fingerprint or with none.
pub authorize-KeyFits :
    (sha256 : Str → Str) (root : ExportRootAuthorizer) (plan : MountPlan) (key fingerprint : Str)
    → authorize sha256 root plan key ≡ ok fingerprint
    → (KeyFits sha256 root plan key) × ((fingerprint ≡ []) ⊎ (fingerprint ≡ root.fingerprint))
unfolding authorize
authorize-KeyFits sha256 root plan key fingerprint h = ground arith

module _ {S N : Type 0} (s : Server S N) where
  -- The checks have passed, and the rest of the world's change is that of the locked part.
  pub record IsGranted (token key : Str) (raw : MountRequest) (w v : World S N) : Type 0 where
    pub request : MountRequest
    pub plan : MountPlan
    pub fingerprint : Str
    pub admitted : IsAdmitted s token raw request plan
    pub fits : KeyFits s.sha256 s.export_root plan key
    pub stamped : (fingerprint ≡ []) ⊎ (fingerprint ≡ s.export_root.fingerprint)
    pub run : v ≡ (mount_locked s (desired_for request plan fingerprint) plan w).1

  -- A mount request changes the store or the node only after every check has passed: the admission
  -- of the request, and the key, if the plan mounts the export root and a key is configured. What
  -- then changes is what the part under the lock changes.
  pub mount-IsGranted :
      (token key : Str) (raw : MountRequest) (w : World S N)
      → ((mount s token key raw w).1 ≡ w) ⊎ IsGranted token key raw w (mount s token key raw w).1
  unfolding mount
  mount-IsGranted token key raw w = go (authorized_mount_plan s token raw true) refl
    where
      keyed :
          (request : MountRequest) (plan : MountPlan)
          → authorized_mount_plan s token raw true ≡ ok (request, plan)
          → (a : Result Str) → authorize s.sha256 s.export_root plan key ≡ a
          → ((continue a
                (λ fingerprint. mount_locked s (desired_for request plan fingerprint) plan)
                w).1
              ≡ w)
            ⊎ IsGranted token key raw w
                (continue a
                  (λ fingerprint. mount_locked s (desired_for request plan fingerprint) plan)
                  w).1
      keyed request plan e (err x) a = inl refl
      keyed request plan e (ok fingerprint) a =
          let (fits, stamped) = authorize-KeyFits s.sha256 s.export_root plan key fingerprint a in
          inr (record {
            request = request;
            plan = plan;
            fingerprint = fingerprint;
            admitted = authorized_mount_plan-IsAdmitted s token raw request plan e;
            fits = fits;
            stamped = stamped;
            run = refl;
          })

      go :
          (r : Result (MountRequest × MountPlan))
          → authorized_mount_plan s token raw true ≡ r
          → ((continue r
                (λ (request, plan) w.
                  continue
                    (authorize s.sha256 s.export_root plan key)
                    (λ fingerprint. mount_locked s (desired_for request plan fingerprint) plan)
                    w)
                w).1
              ≡ w)
            ⊎ IsGranted token key raw w
                (continue r
                  (λ (request, plan) w.
                    continue
                      (authorize s.sha256 s.export_root plan key)
                      (λ fingerprint. mount_locked s (desired_for request plan fingerprint) plan)
                      w)
                  w).1
      go (err x) e = inl refl
      go (ok (request, plan)) e =
          keyed request plan e (authorize s.sha256 s.export_root plan key) refl

  unmount-checks :
      (token : Str) (raw : UnmountRequest) (normal request : MountRequest) (pod : Pod)
      (status : ContainerStatus)
      → authorized_unmount s token raw ≡ ok (request, pod, status)
      → normalize_mount_request s (as_mount_request raw) false ≡ ok normal
      → (authorized_pod_for_request s token normal ≡ ok pod)
        × (select_container_status pod normal.container_name ≡ ok status)
        × (request ≡ record normal { container_name = status.name })
  unfolding authorized_unmount
  unmount-checks token raw normal request pod status h n =
      go (authorized_pod_for_request s token normal) refl
    where
      go :
          (p : Result Pod)
          → authorized_pod_for_request s token normal ≡ p
          → (authorized_pod_for_request s token normal ≡ ok pod)
            × (select_container_status pod normal.container_name ≡ ok status)
            × (request ≡ record normal { container_name = status.name })
      go (err e) pe = absurd (ground arith)
      go (ok p) pe = ground arith

  -- The checks of an unmount have passed.
  pub record MayUnmount (token : Str) (raw : UnmountRequest) (w v : World S N) : Type 0 where
    pub normal : MountRequest
    pub request : MountRequest
    pub pod : Pod
    pub status : ContainerStatus
    pub normalized : normalize_mount_request s (as_mount_request raw) false ≡ ok normal
    pub may_act : MayAct s token normal pod
    pub chosen : select_container_status pod normal.container_name ≡ ok status
    pub named : request ≡ record normal { container_name = status.name }
    pub run : v ≡ (unmount_locked s request pod status w).1

  unmount_unrefused :
      (token : Str) (raw : UnmountRequest) (checked : MountRequest × Pod × ContainerStatus)
      (e : Err)
      → authorized_unmount s token raw ≡ ok checked
      → normalize_mount_request s (as_mount_request raw) false ≢ err e
  unfolding authorized_unmount
  unmount_unrefused token raw checked e h n = ground arith

  MayUnmount-of :
      (token : Str) (raw : UnmountRequest) (request : MountRequest) (pod : Pod)
      (status : ContainerStatus) (w : World S N)
      → authorized_unmount s token raw ≡ ok (request, pod, status)
      → MayUnmount token raw w (unmount_locked s request pod status w).1
  MayUnmount-of token raw request pod status w h =
      go (normalize_mount_request s (as_mount_request raw) false) refl
    where
      go :
          (n : Result MountRequest)
          → normalize_mount_request s (as_mount_request raw) false ≡ n
          → MayUnmount token raw w (unmount_locked s request pod status w).1
      go (err e) ne = absurd (unmount_unrefused token raw (request, pod, status) e h ne)
      go (ok normal) ne =
          let (p, c, q) = unmount-checks token raw normal request pod status h ne in
          record {
            normal = normal;
            request = request;
            pod = pod;
            status = status;
            normalized = ne;
            may_act = authorized_pod-MayAct s token normal pod p;
            chosen = c;
            named = q;
            run = refl;
          }

  -- An unmount request changes the store or the node only after its checks have passed: its shape
  -- and target path, the token's binding to the live pod on this node, and the container.
  pub unmount-MayUnmount :
      (token : Str) (raw : UnmountRequest) (w : World S N)
      → ((unmount s token raw w).1 ≡ w) ⊎ MayUnmount token raw w (unmount s token raw w).1
  unfolding unmount
  unmount-MayUnmount token raw w = go (authorized_unmount s token raw) refl
    where
      go :
          (r : Result (MountRequest × Pod × ContainerStatus))
          → authorized_unmount s token raw ≡ r
          → ((continue r (λ (request, pod, status). unmount_locked s request pod status) w).1 ≡ w)
            ⊎ MayUnmount token raw w
                (continue r (λ (request, pod, status). unmount_locked s request pod status) w).1
      go (err x) e = inl refl
      go (ok (request, pod, status)) e = inr (MayUnmount-of token raw request pod status w e)
