-- ===== src/Client/Publish.antt =====
-- cmd/mounter/main.go: what a CSI NodePublishVolumeRequest says of a mount. Decoding base64 and
-- protobuf are parameters.
pub mod Names
use kruise_agents_nfs_csi.Prelude.{
  ℕ, Bool, true, false, not, ◌&&◌, ◌||◌, List, [], ◌∷◌, ◌++◌, Option, none, some, any, length, leb,
  ltb, ◌==◌, nat_eq, if◌then◌else◌,
}
use kruise_agents_nfs_csi.Go.Text.{Str, codes, str_eq, strs_eq, trim_space}
use kruise_agents_nfs_csi.Go.Maps.{lookup}
use kruise_agents_nfs_csi.Go.Search.{cut_last}
use kruise_agents_nfs_csi.Go.Errors.{Err, Result, ok, err, text, wrap, fail_if, map_err, ◌>>=◌}
use kruise_agents_nfs_csi.Config.{MounterConfig, Duration, nanoseconds, minus_nanoseconds}
use kruise_agents_nfs_csi.Config.Load.{env, default_pod_ns_file}
use kruise_agents_nfs_csi.Api.{MountRequest, version}
use kruise_agents_nfs_csi.Client.{ClientConfig, ClientMountRequest, ClientUnmountRequest}

-- What the command reads of a csi.NodePublishVolumeRequest.
pub record NodePublishVolumeRequest : Type 0 where
  pub volume_id : Str
  pub target_path : Str
  pub volume_context : List (Str × Str)
  pub publish_context : List (Str × Str)

-- firstNonEmpty
unfoldable pub first_non_empty : List Str → Str
first_non_empty [] = []
first_non_empty (value ∷ values) =
    let rest = first_non_empty values in if value == [] then rest else value

abbrev found_value : Option Str → Str
found_value none = []
found_value (some value) = value

-- m[key]: a missing key reads as the empty text
unfoldable pub value_of : List (Str × Str) → Str → Str
value_of entries name = found_value (lookup name entries)

-- isLowerAlphaNumeric: the bytes of a rune that is not ASCII are neither
unfoldable pub is_lower_alpha_numeric : Str → Bool
is_lower_alpha_numeric value =
    not (any (λ c. (ltb c 97 || ltb 122 c) && (ltb c 48 || ltb 57 c)) value) && not (value == [])

-- The test of derivePVNameFromVolumeID, at the last dash.
unfoldable pub without_suffix : Str → Option (Str × Str) → Str
without_suffix volume_id none = volume_id
without_suffix volume_id (some parts) =
    if not (parts.0 == []) && length parts.1 == 6 && is_lower_alpha_numeric parts.1
    then parts.0
    else volume_id

-- derivePVNameFromVolumeID
unfoldable pub derive_pv_name_from_volume_id : Str → Result Str
unfolding without_suffix
derive_pv_name_from_volume_id volume_id =
    if volume_id == []
    then err (text "volume_id is required")
    else ok (without_suffix volume_id (cut_last volume_id 45))

-- The names that a request's contexts give.
unfoldable pub named_pv : NodePublishVolumeRequest → Str
unfolding codes first_non_empty value_of
named_pv r = first_non_empty (
    value_of r.volume_context (codes "csi.storage.k8s.io/pv/name")
    ∷ value_of r.volume_context (codes "pvName")
    ∷ value_of r.volume_context (codes "pv_name")
    ∷ value_of r.volume_context (codes "persistentVolumeName")
    ∷ value_of r.publish_context (codes "csi.storage.k8s.io/pv/name")
    ∷ value_of r.publish_context (codes "pvName")
    ∷ [])

-- pvNameFromNodePublishRequest, of a request that is not nil
unfoldable pub pv_name_from_node_publish_request : NodePublishVolumeRequest → Result Str
pv_name_from_node_publish_request r =
    if not (named_pv r == []) then ok (named_pv r) else derive_pv_name_from_volume_id r.volume_id

-- sourceSubPathFromNodePublishRequest, of a request that is not nil
unfoldable pub source_sub_path_from_node_publish_request : NodePublishVolumeRequest → Str
unfolding codes first_non_empty value_of
source_sub_path_from_node_publish_request r = first_non_empty (
    value_of r.volume_context (codes "sourceSubPath")
    ∷ value_of r.volume_context (codes "source_sub_path")
    ∷ value_of r.volume_context (codes "subPath")
    ∷ value_of r.volume_context (codes "sub_path")
    ∷ value_of r.publish_context (codes "sourceSubPath")
    ∷ value_of r.publish_context (codes "source_sub_path")
    ∷ value_of r.publish_context (codes "subPath")
    ∷ value_of r.publish_context (codes "sub_path")
    ∷ [])

-- decodeNodePublishVolumeRequest
unfoldable pub decode_node_publish_volume_request :
    (Str → Result Str)
    → (Str → Result NodePublishVolumeRequest)
    → Str
    → Result NodePublishVolumeRequest
decode_node_publish_volume_request base64 unmarshal encoded = do
  raw ← map_err (wrap "decode csi node publish config") (base64 encoded)
  map_err (wrap "unmarshal csi node publish config") (unmarshal raw)

-- applyNodePublishConfig, on the decoded request; an error ends the command
unfoldable pub apply_decoded : Bool → MountRequest → NodePublishVolumeRequest → Result MountRequest
apply_decoded include_sub_path request r = do
  pv_name ← pv_name_from_node_publish_request r
  ok (record request {
    pv_name = pv_name;
    source_sub_path =
        if include_sub_path && request.source_sub_path == []
        then source_sub_path_from_node_publish_request r
        else request.source_sub_path;
    target_path = r.target_path;
  })
