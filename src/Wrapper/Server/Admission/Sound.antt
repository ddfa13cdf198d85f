-- ===== src/Wrapper/Server/Admission/Sound.antt =====
-- internal/wrapper/server.go: what the admission of a request establishes.
use kruise_agents_nfs_csi.Prelude.{◌≡◌, ◌⊎◌, refl, [], ◌∷◌, Option, none, some, arith, ap, ◌∙◌}
use kruise_agents_nfs_csi.Go.Text.{Str, str_eq}
use kruise_agents_nfs_csi.Go.Errors.{Result, ok, err}
use kruise_agents_nfs_csi.Api.{MountRequest}
use kruise_agents_nfs_csi.Kube.{Pod, TokenReviewStatus}
use kruise_agents_nfs_csi.Wrapper.Authz.{authorize_token, authorize_pod, validate_pod_node}
use kruise_agents_nfs_csi.Wrapper.Authz.Policy.{
  IsTarget, IsBound, IsLive, authorize_token-inv, authorize_pod_iff, validate_pod_node_iff,
}
use kruise_agents_nfs_csi.Wrapper.Server.Base.{Server}
use kruise_agents_nfs_csi.Wrapper.Server.Admission.{authorized_pod_for_request}

module _ {S N : Type 0} (s : Server S N) where
  -- The caller may act for the pod: its token is live and bound to the pod, which is the live
  -- object that the request names, on this node.
  pub record MayAct (token : Str) (request : MountRequest) (pod : Pod) : Type 0 where
    pub status : TokenReviewStatus
    pub reviewed : s.kube.review_token token (s.cfg.token_audience ∷ []) ≡ ok (some status)
    pub found : s.kube.get_pod request.namespace request.pod_name ≡ ok pod
    pub live : IsLive status s.cfg.token_audience
    pub target : IsTarget pod request
    pub bound : IsBound status pod request
    pub node : (s.cfg.node_name ≡ []) ⊎ (pod.spec.node_name ≡ s.cfg.node_name)

  MayAct-of :
      (token : Str) (request : MountRequest) (pod : Pod) (reviewed : Option TokenReviewStatus)
      (status : TokenReviewStatus)
      → s.kube.review_token token (s.cfg.token_audience ∷ []) ≡ ok reviewed
      → authorize_token reviewed request.namespace s.cfg.token_audience ≡ ok status
      → s.kube.get_pod request.namespace request.pod_name ≡ ok pod
      → authorize_pod status pod request ≡ ok tt
      → validate_pod_node pod s.cfg.node_name ≡ ok tt
      → MayAct token request pod
  MayAct-of token request pod reviewed status r a f p n =
      let (e, live) =
        authorize_token-inv reviewed request.namespace s.cfg.token_audience status a in
      let (target, bound) = (authorize_pod_iff status pod request).0 p in
      record {
        status = status;
        reviewed = r ∙ ap ok e;
        found = f;
        live = live;
        target = target;
        bound = bound;
        node = (validate_pod_node_iff pod s.cfg.node_name).0 n;
      }

  -- What the code has seen when it returns the pod.
  authorized_pod-checks :
      (token : Str) (request : MountRequest) (pod found : Pod) (status : TokenReviewStatus)
      → authorized_pod_for_request s token request ≡ ok pod
      → s.kube.review_token token (s.cfg.token_audience ∷ []) ≡ ok (some status)
      → s.kube.get_pod request.namespace request.pod_name ≡ ok found
      → (authorize_token (some status) request.namespace s.cfg.token_audience ≡ ok status)
        × (found ≡ pod)
        × (authorize_pod status pod request ≡ ok tt)
        × (validate_pod_node pod s.cfg.node_name ≡ ok tt)
  unfolding authorized_pod_for_request authorize_token
  authorized_pod-checks token request pod found status h r g = ground arith

  pub authorized_pod-MayAct :
      (token : Str) (request : MountRequest) (pod : Pod)
      → authorized_pod_for_request s token request ≡ ok pod
      → MayAct token request pod
  unfolding authorized_pod_for_request authorize_token
  authorized_pod-MayAct token request pod h =
      go (s.kube.review_token token (s.cfg.token_audience ∷ [])) refl
        (s.kube.get_pod request.namespace request.pod_name) refl
    where
      go :
          (r : Result (Option TokenReviewStatus))
          → s.kube.review_token token (s.cfg.token_audience ∷ []) ≡ r
          → (g : Result Pod) → s.kube.get_pod request.namespace request.pod_name ≡ g
          → MayAct token request pod
      go (err e) re g ge = cc (rw re at h)
      go (ok none) re g ge = cc (rw re at h)
      go (ok (some status)) re (err e) ge = absurd (ground arith)
      go (ok (some status)) re (ok found) ge =
          let (a, e, p, n) = authorized_pod-checks token request pod found status h re ge in
          MayAct-of token request pod (some status) status re a (ge ∙ ap ok e) p n
