-- ===== src/Wrapper/Authz/Policy.antt =====
-- internal/wrapper/authz.go: what the checks of a token and a pod establish, and that they ask for
-- no more.
use kruise_agents_nfs_csi.Prelude.{
  ◌≡◌, ◌≢◌, ◌⊎◌, ◌↔◌, refl, true, List, [], ◌∷◌, ◌++◌, Option, none, some, arith, append_assoc, ◌∙◌,
  ap, nat_eq,
}
use kruise_agents_nfs_csi.Go.Text.{Str, str_eq, has_prefix}
use kruise_agents_nfs_csi.Go.Errors.{ok}
use kruise_agents_nfs_csi.Api.{MountRequest}
use kruise_agents_nfs_csi.Kube.{TokenReviewStatus, Pod}
use kruise_agents_nfs_csi.Wrapper.Authz.{
  require_single, authorize_token, authorize_pod, require_token_pod_extra, values_at,
  validate_pod_identity, validate_pod_node, contains_string, service_account_prefix, colon,
  token_pod_name_extra_key, token_pod_uid_extra_key, succeeded, failed,
}

-- The name of the pod's service account as a token review gives it.
abbrev pub account_of : Str → Str → Str
account_of namespace service_account =
    service_account_prefix ++ (namespace ++ (colon ++ service_account))

-- The pod is the one that the request names, and it runs.
pub record IsTarget (pod : Pod) (request : MountRequest) : Type 0 where
  pub namespace : pod.metadata.namespace ≡ request.namespace
  pub name : pod.metadata.name ≡ request.pod_name
  pub uid : pod.metadata.uid ≡ request.pod_uid
  pub not_succeeded : pod.status.phase ≢ succeeded
  pub not_failed : pod.status.phase ≢ failed

-- The token is a live one of the pod's service account, and bound to exactly this pod.
pub record IsBound (status : TokenReviewStatus) (pod : Pod) (request : MountRequest) : Type 0 where
  pub account : status.user.username ≡ account_of request.namespace pod.spec.service_account_name
  pub name_extra : values_at status.user.extra token_pod_name_extra_key ≡ request.pod_name ∷ []
  pub uid_extra : values_at status.user.extra token_pod_uid_extra_key ≡ request.pod_uid ∷ []
  pub name_ne_nil : request.pod_name ≢ []
  pub uid_ne_nil : request.pod_uid ≢ []

single-inv :
    (value expected : Str)
    → require_single (value ∷ []) expected ≡ ok tt
    → (value ≡ expected) × (value ≢ [])
unfolding require_single
single-inv value expected h = ground arith

require_single-inv :
    (values : List Str) (expected : Str)
    → require_single values expected ≡ ok tt
    → (values ≡ expected ∷ []) × (expected ≢ [])
unfolding require_single
require_single-inv [] expected h = cc
require_single-inv (value ∷ []) expected h =
    let (e, n) = single-inv value expected h in (ap (λ v. v ∷ []) e, λ z. n (e ∙ z))
require_single-inv (value ∷ other ∷ values) expected h = cc

require_single_self :
    (expected : Str) → expected ≢ [] → require_single (expected ∷ []) expected ≡ ok tt
unfolding require_single
require_single_self expected n = ground arith

require_single_iff :
    (values : List Str) (expected : Str)
    → (require_single values expected ≡ ok tt) ↔ ((values ≡ expected ∷ []) × (expected ≢ []))
require_single_iff values expected =
    (require_single-inv values expected, (λ h. rw h.0 (require_single_self expected h.1)))

require_token_pod_extra_iff :
    (extra : List (Str × List Str)) (k expected : Str)
    → (require_token_pod_extra extra k expected ≡ ok tt)
      ↔ ((values_at extra k ≡ expected ∷ []) × (expected ≢ []))
unfolding require_token_pod_extra
require_token_pod_extra_iff extra k expected = require_single_iff (values_at extra k) expected

pub validate_pod_identity_iff :
    (pod : Pod) (request : MountRequest)
    → (validate_pod_identity pod request ≡ ok tt) ↔ IsTarget pod request
unfolding validate_pod_identity
validate_pod_identity_iff pod request = (λ h. ground arith, λ h. ground arith)

-- A token's status and a pod pass for a request exactly if the pod is the one that the request
-- names, is neither succeeded nor failed, and the token is of the pod's service account and carries
-- the pod's non-empty name and uid, each as the only value.
pub authorize_pod_iff :
    (status : TokenReviewStatus) (pod : Pod) (request : MountRequest)
    → (authorize_pod status pod request ≡ ok tt)
      ↔ (IsTarget pod request × IsBound status pod request)
unfolding authorize_pod
authorize_pod_iff status pod request =
    let identity = validate_pod_identity_iff pod request in
    let named =
      require_token_pod_extra_iff status.user.extra token_pod_name_extra_key request.pod_name in
    let unique =
      require_token_pod_extra_iff status.user.extra token_pod_uid_extra_key request.pod_uid in
    (
      λ h. ground (arith, identity.0, named.0, unique.0),
      λ h. ground (arith, identity.1, named.1, unique.1),
    )

has_prefix_self : (p s : Str) → has_prefix (p ++ s) p ≡ true
unfolding has_prefix
has_prefix_self [] s = refl
has_prefix_self (c ∷ p) s = ground (arith, has_prefix_self p s)

-- The first test of the username is part of the test behind the lookup of the pod.
has_prefix-account_of :
    (namespace account : Str)
    → has_prefix (account_of namespace account) (service_account_prefix ++ (namespace ++ colon))
      ≡ true
has_prefix-account_of namespace account = rw (← append_assoc namespace colon account) (
    rw (← append_assoc service_account_prefix (namespace ++ colon) account)
      (has_prefix_self (service_account_prefix ++ (namespace ++ colon)) account))

-- A token that is live for the expected audience; an empty expected audience stands for any.
pub record IsLive (status : TokenReviewStatus) (audience : Str) : Type 0 where
  pub authenticated : status.authenticated ≡ true
  pub heard : (audience ≡ []) ⊎ (contains_string status.audiences audience ≡ true)

pub authorize_token-inv :
    (status : Option TokenReviewStatus) (namespace audience : Str) (t : TokenReviewStatus)
    → authorize_token status namespace audience ≡ ok t
    → (status ≡ some t) × IsLive t audience
unfolding authorize_token
authorize_token-inv none namespace audience t h = cc
authorize_token-inv (some status) namespace audience t h = ground arith

authorize_token_live :
    (t : TokenReviewStatus) (namespace audience account : Str)
    → t.user.username ≡ account_of namespace account
    → IsLive t audience
    → authorize_token (some t) namespace audience ≡ ok t
unfolding authorize_token
authorize_token_live t namespace audience account u h =
    ground (arith, has_prefix-account_of namespace account)

pub validate_pod_node_iff :
    (pod : Pod) (node : Str)
    → (validate_pod_node pod node ≡ ok tt) ↔ ((node ≡ []) ⊎ (pod.spec.node_name ≡ node))
unfolding validate_pod_node
validate_pod_node_iff pod node = (λ h. ground arith, λ h. ground arith)
