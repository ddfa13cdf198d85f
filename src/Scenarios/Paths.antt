-- ===== src/Scenarios/Paths.antt =====
-- Concrete target paths, sub-paths, and keys of the store.
use kruise_agents_nfs_csi.Prelude.{
  ◌≡◌, ◌↔◌, refl, true, false, List, [], ◌∷◌, ℕ_discrete, if◌then◌else◌, All, any,
}
use kruise_agents_nfs_csi.Go.Text.{Str, codes, str_dec, has_prefix, contains_byte, trim_space}
use kruise_agents_nfs_csi.Go.Split.{split, join}
use kruise_agents_nfs_csi.Go.Clean.{slash, is_abs, clean, clean_parts, resolve, enter, render}
use kruise_agents_nfs_csi.Go.Clean.Kept.{has_dot_dot, kept}
use kruise_agents_nfs_csi.Go.Errors.{ok, err, text}
use kruise_agents_nfs_csi.Security.TargetPath.{
  validate_target_path, is_denied, denied_exact, denied_files, denied_prefixes,
}
use kruise_agents_nfs_csi.Security.TargetPath.Denied.{forbidden}
use kruise_agents_nfs_csi.Security.TargetPath.Checked.{
  IsAllowed, validate_target_path-eq, validate_target_path-IsAllowed,
}
use kruise_agents_nfs_csi.Security.SubPath.{validate_source_sub_path}
use kruise_agents_nfs_csi.Security.SubPath.Checked.{IsSubPath, validate_source_sub_path_iff}
use kruise_agents_nfs_csi.Node.NfsPath.{normalize_nfs_sub_dir}
use kruise_agents_nfs_csi.Node.NfsPath.Checked.{normalize_nfs_sub_dir_iff}
use kruise_agents_nfs_csi.Node.Segments.{source_sub_path_segments, collect_segments}
use kruise_agents_nfs_csi.Node.Segments.Walk.{
  IsName, source_sub_path_segments-IsName, segments-validate_source_sub_path,
}

abbrev raw : Str
raw = codes "/data/./a/../b/"

abbrev cleaned : Str
cleaned = codes "/data/b"

raw_accepted : validate_target_path raw ≡ ok cleaned
unfolding validate_target_path codes contains_byte is_abs is_denied clean clean_parts resolve enter
    render split join denied_exact denied_files denied_prefixes has_prefix str_dec ℕ_discrete any
raw_accepted = refl

secrets_refused :
    validate_target_path (codes "/a/../var/run/secrets/") ≡ err (text "target path is not allowed")
unfolding validate_target_path codes contains_byte is_abs is_denied clean clean_parts resolve enter
    render split join denied_exact denied_files denied_prefixes has_prefix str_dec ℕ_discrete any
secrets_refused = refl

validate_target_path-eq_example : validate_target_path raw ≡ (
    if forbidden (clean_parts raw)
    then err (text "target path is not allowed")
    else ok (render true (clean_parts raw)))
unfolding codes contains_byte is_abs has_prefix ℕ_discrete any
validate_target_path-eq_example = validate_target_path-eq raw refl refl

validate_target_path-IsAllowed_example : IsAllowed raw cleaned
validate_target_path-IsAllowed_example = validate_target_path-IsAllowed raw cleaned raw_accepted

abbrev raw_sub : Str
raw_sub = codes "x//./y"

abbrev clean_sub : Str
clean_sub = codes "x/y"

sub_accepted : validate_source_sub_path raw_sub ≡ ok clean_sub
unfolding validate_source_sub_path codes contains_byte is_abs has_dot_dot clean clean_parts resolve
    enter render split join has_prefix str_dec ℕ_discrete any
sub_accepted = refl

validate_source_sub_path_iff_example :
    (validate_source_sub_path raw_sub ≡ ok clean_sub)
    ↔ (IsSubPath raw_sub × (clean_sub ≡ join (kept raw_sub) slash))
validate_source_sub_path_iff_example = validate_source_sub_path_iff raw_sub clean_sub

normalize_nfs_sub_dir_iff_example : (normalize_nfs_sub_dir raw_sub ≡ ok clean_sub) ↔ (
    (contains_byte (trim_space raw_sub) 0 ≡ false)
    × (has_dot_dot (split (trim_space raw_sub) slash) ≡ false)
    × (clean_sub ≡ join (kept (trim_space raw_sub)) slash))
normalize_nfs_sub_dir_iff_example = normalize_nfs_sub_dir_iff raw_sub clean_sub

segments-validate_source_sub_path_example : source_sub_path_segments clean_sub ≡ ok (kept raw_sub)
segments-validate_source_sub_path_example =
    segments-validate_source_sub_path raw_sub clean_sub sub_accepted

abbrev names : List Str
names = codes "x" ∷ codes "y" ∷ []

segments_found : source_sub_path_segments raw_sub ≡ ok names
unfolding source_sub_path_segments codes is_abs has_prefix collect_segments split contains_byte any
    str_dec ℕ_discrete
segments_found = refl

source_sub_path_segments-IsName_example : All IsName names
source_sub_path_segments-IsName_example =
    source_sub_path_segments-IsName raw_sub names segments_found
