-- ===== src/Wrapper/Reconciler/Remount.antt =====
-- internal/wrapper/reconciler.go: when the reconciler touches the node.
use kruise_agents_nfs_csi.Prelude.{
  Option, some, none, ◌≡◌, ◌≢◌, ◌⊎◌, inl, inr, refl, Bool, true, false, not, ◌&&◌, [], arith, ◌==◌,
  bool_eq, if◌then◌else◌,
}
use kruise_agents_nfs_csi.Go.Text.{Str, str_eq}
use kruise_agents_nfs_csi.Go.Errors.{Err, Result, ok, err}
use kruise_agents_nfs_csi.Go.Exec.{◌>>=◌, continue, lift}
use kruise_agents_nfs_csi.Api.{MountRequest}
use kruise_agents_nfs_csi.Kube.{Pod, ContainerStatus}
use kruise_agents_nfs_csi.Node.{MountPlan}
use kruise_agents_nfs_csi.Node.NfsPath.{is_nfs_export_root}
use kruise_agents_nfs_csi.Wrapper.Authz.{validate_pod_identity, validate_pod_node}
use kruise_agents_nfs_csi.Wrapper.Authz.Policy.{
  IsTarget, validate_pod_identity_iff, validate_pod_node_iff,
}
use kruise_agents_nfs_csi.Wrapper.Desired.{DesiredMount, key, desired_eq}
use kruise_agents_nfs_csi.Wrapper.RootAuth.{ExportRootAuthorizer, authorizes_fingerprint}
use kruise_agents_nfs_csi.Wrapper.Server.Base.{Server, World, get}
use kruise_agents_nfs_csi.Wrapper.Server.Admission.{normalize_mount_request, mount_plan_for_pod}
use kruise_agents_nfs_csi.Wrapper.Server.Admission.Planned.{IsPlanned, mount_plan_for_pod-IsPlanned}
use kruise_agents_nfs_csi.Wrapper.Reconciler.{
  reauthorize, locate, remount, settle, mount_again, reconcile_plan, reconcile_located, is_current,
  reconcile_current, reconcile_mount_for_pod,
}

-- The present policy allows the plan: it is no export root, or no key is configured, or the intent
-- carries the fingerprint of the present key.
abbrev pub RootAllowed : ExportRootAuthorizer → Str → MountPlan → Type 0
RootAllowed root fingerprint plan =
    (is_nfs_export_root plan ≡ false)
    ⊎ (root.configured ≡ false)
    ⊎ (authorizes_fingerprint root fingerprint ≡ true)

-- What an intent is after it has been authorized anew: its export-root decision is that of the
-- plan, the present key has granted it, and its request and container are as before.
pub reauthorize_sound :
    (root : ExportRootAuthorizer) (current refreshed : DesiredMount) (plan : MountPlan)
    → reauthorize root current plan ≡ ok refreshed
    → (RootAllowed root refreshed.export_root_key_fingerprint plan)
      × (refreshed.export_root_authorized ≡ is_nfs_export_root plan)
      × (refreshed.legacy_root_classification_unknown ≡ false)
      × (refreshed.request ≡ current.request)
      × (refreshed.container_id ≡ current.container_id)
unfolding reauthorize
reauthorize_sound root current refreshed plan h = ground arith

module _ {S N : Type 0} (s : Server S N) where
  located-checks :
      (current : DesiredMount) (pod : Pod) (r request : MountRequest) (status : ContainerStatus)
      → locate s current pod ≡ ok (request, status)
      → normalize_mount_request s current.request true ≡ ok r
      → (validate_pod_identity pod r ≡ ok tt)
        × (validate_pod_node pod s.cfg.node_name ≡ ok tt)
        × (record r { container_name = status.name } ≡ request)
  unfolding locate
  located-checks current pod r request status h n = ground arith

  no_request :
      (current : DesiredMount) (pod : Pod) (request : MountRequest) (status : ContainerStatus)
      (e : Err)
      → locate s current pod ≡ ok (request, status)
      → normalize_mount_request s current.request true ≢ err e
  unfolding locate
  no_request current pod request status e h n = ground arith

  -- The request is the intent's own, in normal form and for the container found, and names the pod.
  pub record IsLocated (current : DesiredMount) (pod : Pod) (checked : MountRequest) : Type 0 where
    pub normal : MountRequest
    pub container : Str
    pub normalized : normalize_mount_request s current.request true ≡ ok normal
    pub checked_eq : record normal { container_name = container } ≡ checked
    pub target : IsTarget pod normal
    pub node : (s.cfg.node_name ≡ []) ⊎ (pod.spec.node_name ≡ s.cfg.node_name)

  locate-IsLocated :
      (current : DesiredMount) (pod : Pod) (request : MountRequest) (status : ContainerStatus)
      → locate s current pod ≡ ok (request, status)
      → IsLocated current pod request
  locate-IsLocated current pod request status h =
      go (normalize_mount_request s current.request true) refl
    where
      go :
          (r : Result MountRequest)
          → normalize_mount_request s current.request true ≡ r
          → IsLocated current pod request
      go (err e) re = absurd (no_request current pod request status e h re)
      go (ok r) re =
          let (v, n, e) = located-checks current pod r request status h re in
          record {
            normal = r;
            container = status.name;
            normalized = re;
            checked_eq = e;
            target = (validate_pod_identity_iff pod r).0 v;
            node = (validate_pod_node_iff pod s.cfg.node_name).0 n;
          }

  -- The node is as before, or has been asked to mount the plan.
  abbrev Touched : MountPlan → World S N → World S N → Type 0
  Touched plan w v = (v.node ≡ w.node) ⊎ (v.node ≡ (s.mounter.mount plan w.node).1)

  remount-node :
      (current : DesiredMount) (plan : MountPlan) (w : World S N)
      → Touched plan w (remount s current plan w).1
  unfolding remount
  remount-node current plan w = ground arith

  settle-node :
      (current : DesiredMount) (plan : MountPlan) (mounted : Bool) (w : World S N)
      → Touched plan w (settle s current plan mounted w).1
  unfolding settle
  settle-node current plan false w = remount-node current plan w
  settle-node current plan true w = ground arith

  mount_again-node :
      (current : DesiredMount) (plan : MountPlan) (w : World S N)
      → Touched plan w (mount_again s current plan w).1
  unfolding mount_again
  mount_again-node current plan w = ground (
    arith,
    remount-node current plan w,
    settle-node current plan true w,
    settle-node current plan false w,
  )

  -- What the reconciler has checked before it mounts.
  pub record IsRemount (pod : Pod) (w v : World S N) : Type 0 where
    pub current : DesiredMount
    pub checked : MountRequest
    pub named : MountRequest
    pub plan : MountPlan
    pub refreshed : DesiredMount
    pub stored : get s (key current) w ≡ some current
    pub located : IsLocated current pod checked
    pub planned : IsPlanned s checked named pod plan
    pub reauthorized :
        reauthorize s.export_root (record current { request = named }) plan ≡ ok refreshed
    pub allowed : RootAllowed s.export_root refreshed.export_root_key_fingerprint plan
    pub mounted : v.node ≡ (s.mounter.mount plan w.node).1

  -- The same, for this intent.
  abbrev pub IsRemountOf : DesiredMount → Pod → World S N → World S N → Type 0
  IsRemountOf desired pod w v = (m : IsRemount pod w v) × (m.current ≡ desired)

  abbrev Outcome : DesiredMount → Pod → World S N → World S N → Type 0
  Outcome desired pod w v = (v.node ≡ w.node) ⊎ IsRemountOf desired pod w v

  reconcile_plan-Outcome :
      (current : DesiredMount) (pod : Pod) (checked named : MountRequest) (plan : MountPlan)
      (w : World S N)
      → get s (key current) w ≡ some current
      → IsLocated current pod checked
      → IsPlanned s checked named pod plan
      → Outcome current pod w (reconcile_plan s current (named, plan) w).1
  unfolding reconcile_plan
  reconcile_plan-Outcome current pod checked named plan w g l p =
      go (reauthorize s.export_root (record current { request = named }) plan) refl
    where
      go :
          (r : Result DesiredMount)
          → reauthorize s.export_root (record current { request = named }) plan ≡ r
          → Outcome current pod w (continue r (λ refreshed. mount_again s refreshed plan) w).1
      go (err e) re = inl refl
      go (ok refreshed) re = elim (mount_again-node refreshed plan w) [
        | inl same ↦ inl same
        | inr mounted ↦ inr (
          record {
            current = current;
            checked = checked;
            named = named;
            plan = plan;
            refreshed = refreshed;
            stored = g;
            located = l;
            planned = p;
            reauthorized = re;
            allowed =
                (reauthorize_sound s.export_root (record current { request = named }) refreshed plan
                  re).0;
            mounted = mounted;
          },
          refl,
        )
      ]

  reconcile_located-Outcome :
      (current : DesiredMount) (pod : Pod) (checked : MountRequest) (status : ContainerStatus)
      (w : World S N)
      → get s (key current) w ≡ some current
      → IsLocated current pod checked
      → Outcome current pod w (reconcile_located s current pod (checked, status) w).1
  unfolding reconcile_located
  reconcile_located-Outcome current pod checked status w g l =
      skip (not (current.container_id == []) && current.container_id == status.container_id)
    where
      go :
          (r : Result (MountRequest × MountPlan))
          → mount_plan_for_pod s checked pod ≡ r
          → Outcome current pod w (continue r (reconcile_plan s current) w).1
      go (err e) re = inl refl
      go (ok (named, plan)) re =
          reconcile_plan-Outcome current pod checked named plan w g l
            (mount_plan_for_pod-IsPlanned s checked named pod plan re)

      skip :
          (b : Bool)
          → Outcome current pod w
              ((if b
                  then (λ v. (ok tt, v))
                  else (lift (mount_plan_for_pod s checked pod) >>= reconcile_plan s current))
                w).1
      skip true = inl refl
      skip false = go (mount_plan_for_pod s checked pod) refl

  reconcile_current-Outcome :
      (current : DesiredMount) (pod : Pod) (w : World S N)
      → get s (key current) w ≡ some current
      → Outcome current pod w (reconcile_current s current pod w).1
  unfolding reconcile_current
  reconcile_current-Outcome current pod w g = go (locate s current pod) refl
    where
      go :
          (r : Result (MountRequest × ContainerStatus))
          → locate s current pod ≡ r
          → Outcome current pod w (continue r (reconcile_located s current pod) w).1
      go (err e) re = inl refl
      go (ok (checked, status)) re =
          reconcile_located-Outcome current pod checked status w g
            (locate-IsLocated current pod checked status re)

  is_current-eq :
      (snapshot : DesiredMount) (o : Option DesiredMount)
      → is_current s snapshot o ≡ true
      → o ≡ some snapshot
  unfolding is_current
  is_current-eq snapshot none h = cc
  is_current-eq snapshot (some current) h = ground arith

  -- A reconciliation that changes the node is a mount for its own intent.
  pub reconcile_mount_for_pod-IsRemountOf :
      (snapshot : DesiredMount) (pod : Pod) (w : World S N)
      → ((reconcile_mount_for_pod s snapshot pod w).1.node ≡ w.node)
        ⊎ IsRemountOf snapshot pod w (reconcile_mount_for_pod s snapshot pod w).1
  unfolding reconcile_mount_for_pod
  reconcile_mount_for_pod-IsRemountOf snapshot pod w =
      go (is_current s snapshot (get s (key snapshot) w)) refl
    where
      go :
          (b : Bool)
          → is_current s snapshot (get s (key snapshot) w) ≡ b
          → Outcome snapshot pod w (if b then reconcile_current s snapshot pod w else (ok tt, w)).1
      go true h = reconcile_current-Outcome snapshot pod w (is_current-eq snapshot _ h)
      go false h = inl refl

  -- The reconciler leaves the node alone, unless the stored intent names this pod, live and on this
  -- node, the volume still grants its use to the pod, and the present export-root policy allows it;
  -- then it asks for that one mount. No token takes part: the checks are those of a request.
  pub reconcile_mount_for_pod-Outcome :
      (snapshot : DesiredMount) (pod : Pod) (w : World S N)
      → ((reconcile_mount_for_pod s snapshot pod w).1.node ≡ w.node)
        ⊎ IsRemount pod w (reconcile_mount_for_pod s snapshot pod w).1
  reconcile_mount_for_pod-Outcome snapshot pod w =
      elim (reconcile_mount_for_pod-IsRemountOf snapshot pod w) [
        | inl same ↦ inl same
        | inr remount ↦ inr remount.0
      ]
