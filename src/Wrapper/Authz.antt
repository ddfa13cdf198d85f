-- ===== src/Wrapper/Authz.antt =====
-- internal/wrapper/authz.go: the checks of a request, a token, a pod and a volume.
pub mod Containers
pub mod Plan
pub mod Policy
pub mod Annotations
use kruise_agents_nfs_csi.Prelude.{
  Bool, true, false, not, ◌&&◌, ◌||◌, List, [], ◌∷◌, ◌++◌, Option, none, some, nat_eq, ◌==◌, any,
  if◌then◌else◌,
}
use kruise_agents_nfs_csi.Go.Text.{Str, codes, str_eq, has_prefix, trim_space}
use kruise_agents_nfs_csi.Go.Split.{split}
use kruise_agents_nfs_csi.Go.Maps.{lookup}
use kruise_agents_nfs_csi.Go.Errors.{
  Err, Result, ok, err, sentinel, bad_request, text, wrap, ◌>>=◌, ◌>>◌, fail_if,
}
use kruise_agents_nfs_csi.Api.{MountRequest, version}
use kruise_agents_nfs_csi.Kube.{
  TokenReviewStatus, Pod, PersistentVolume, CsiPersistentVolumeSource, ObjectMeta,
}

unfoldable pub allow_namespace_annotation : Str
unfolding codes
allow_namespace_annotation = codes "kary.dev/allow-namespace"

unfoldable pub allow_service_account_annotation : Str
unfolding codes
allow_service_account_annotation = codes "kary.dev/allow-serviceaccount"

unfoldable pub token_pod_name_extra_key : Str
unfolding codes
token_pod_name_extra_key = codes "authentication.kubernetes.io/pod-name"

unfoldable pub token_pod_uid_extra_key : Str
unfolding codes
token_pod_uid_extra_key = codes "authentication.kubernetes.io/pod-uid"

-- validateRequestShape
unfoldable pub validate_request_shape : Str → MountRequest → Result (Unit {0})
validate_request_shape driver_name request = do
  fail_if (not (request.api_version == version)) (wrap "api_version" (sentinel bad_request))
  fail_if (not (request.driver_name == driver_name)) (wrap "driver_name" (sentinel bad_request))
  fail_if (request.namespace == []) (wrap "namespace is required" (sentinel bad_request))
  fail_if (request.pod_name == []) (wrap "pod_name is required" (sentinel bad_request))
  fail_if (request.pod_uid == []) (wrap "pod_uid is required" (sentinel bad_request))
  fail_if (request.pv_name == []) (wrap "pv_name is required" (sentinel bad_request))
  fail_if (request.target_path == []) (wrap "target_path is required" (sentinel bad_request))
  ok tt

-- containsString
unfoldable pub contains_string : List Str → Str → Bool
unfolding any
contains_string values target = any (λ value. value == target) values

unfoldable pub service_account_prefix : Str
unfolding codes
service_account_prefix = codes "system:serviceaccount:"

abbrev pub colon : Str
colon = 58 ∷ []

-- authorizeToken; `none` is a nil status
unfoldable pub authorize_token : Option TokenReviewStatus → Str → Str → Result TokenReviewStatus
authorize_token none namespace expected_audience = err (text "token review returned empty status")
authorize_token (some status) namespace expected_audience = do
  fail_if (not status.authenticated) (text "token is not authenticated")
  fail_if (not (has_prefix status.user.username (service_account_prefix ++ (namespace ++ colon))))
      (text "token service account does not belong to namespace")
  fail_if
      (not (expected_audience == []) && not (contains_string status.audiences expected_audience))
      (text "token audience does not include the expected one")
  ok status

-- requireTokenPodExtra, on the values under the key
unfoldable pub require_single : List Str → Str → Result (Unit {0})
require_single [] expected = err (text "token must contain exactly one non-empty value")
require_single (value ∷ []) expected = do
  fail_if (value == []) (text "token must contain exactly one non-empty value")
  fail_if (not (value == expected)) (text "token does not match target pod")
  ok tt
require_single (value ∷ other ∷ values) expected =
    err (text "token must contain exactly one non-empty value")

-- A missing key reads as the empty list.
abbrev pub values_at : List (Str × List Str) → Str → List Str
values_at extra key = elim (lookup key extra) [ none ↦ [] | some values ↦ values ]

-- requireTokenPodExtra
unfoldable pub require_token_pod_extra : List (Str × List Str) → Str → Str → Result (Unit {0})
unfolding require_single
require_token_pod_extra extra key expected = require_single (values_at extra key) expected

unfoldable pub succeeded : Str
unfolding codes
succeeded = codes "Succeeded"

unfoldable pub failed : Str
unfolding codes
failed = codes "Failed"

-- validatePodIdentity
unfoldable pub validate_pod_identity : Pod → MountRequest → Result (Unit {0})
validate_pod_identity pod request = do
  fail_if
      (not (pod.metadata.namespace == request.namespace)
        || not (pod.metadata.name == request.pod_name))
      (text "pod identity mismatch")
  fail_if (not (pod.metadata.uid == request.pod_uid)) (text "pod uid mismatch")
  fail_if (pod.status.phase == succeeded || pod.status.phase == failed) (text "pod is not running")
  ok tt

-- authorizePod
unfoldable pub authorize_pod : TokenReviewStatus → Pod → MountRequest → Result (Unit {0})
authorize_pod status pod request = do
  validate_pod_identity pod request
  fail_if
      (not (
        status.user.username
        == service_account_prefix
          ++ (request.namespace ++ (colon ++ pod.spec.service_account_name))))
      (text "token service account does not match pod service account")
  require_token_pod_extra status.user.extra token_pod_name_extra_key request.pod_name
  require_token_pod_extra status.user.extra token_pod_uid_extra_key request.pod_uid

-- validatePodNode
unfoldable pub validate_pod_node : Pod → Str → Result (Unit {0})
validate_pod_node pod node_name =
    fail_if (not (node_name == []) && not (pod.spec.node_name == node_name))
      (text "pod is scheduled on another node")

abbrev pub star : Str
star = 42 ∷ []

-- The loop over the entries: a bad entry ends it, and `allowed` remembers a match.
unfoldable pub scan_entries : Str → Bool → List Str → Result Bool
scan_entries identity allowed [] = ok allowed
scan_entries identity allowed (raw ∷ raws) =
    let entry = trim_space raw in
    let rest = scan_entries identity (allowed || entry == identity) raws in
    if entry == [] || entry == star then err (text "pv annotation contains invalid entry") else rest

-- authorizePVAnnotation
unfoldable pub authorize_pv_annotation : PersistentVolume → Str → Str → Result (Unit {0})
authorize_pv_annotation pv key identity = elim (lookup key pv.metadata.annotations) [
  | none ↦ ok tt
  | some raw ↦
      fail_if (raw == []) (text "pv annotation must contain a comma-separated allowlist")
      >> (scan_entries identity false (split raw 44) >>= λ allowed.
          fail_if (not allowed) (text "pv annotation does not allow the target pod"))
]

-- authorizePVForPod; the CSI source comes back for the callers that read it
unfoldable pub authorize_pv_for_pod :
    Str → Pod → PersistentVolume → Result CsiPersistentVolumeSource
authorize_pv_for_pod driver_name pod pv = elim pv.spec.csi [
  | none ↦ err (text "pv is not a CSI pv")
  | some csi ↦
      fail_if (not (csi.driver == driver_name)) (text "pv uses another driver")
      >> (authorize_pv_annotation pv allow_namespace_annotation pod.metadata.namespace
          >> (authorize_pv_annotation pv allow_service_account_annotation
                pod.spec.service_account_name
              >> ok csi))
]
