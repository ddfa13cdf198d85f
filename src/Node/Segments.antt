-- ===== src/Node/Segments.antt =====
-- sourceSubPathSegments of internal/node/mounter_linux.go: the directory names that the mounter
-- opens one by one below the staged mount.
pub mod Walk
use kruise_agents_nfs_csi.Prelude.{String, ◌||◌, List, [], ◌∷◌, ◌==◌, if◌then◌else◌}
use kruise_agents_nfs_csi.Go.Text.{Str, str_eq, contains_byte}
use kruise_agents_nfs_csi.Go.Split.{split}
use kruise_agents_nfs_csi.Go.Clean.{slash, dot, dot_dot, is_abs}
use kruise_agents_nfs_csi.Go.Errors.{
  Err, Result, ok, err, sentinel, bad_source_sub_path, annotate, text, ◌>>=◌,
}

unfoldable pub bad_sub_path : String → Err
bad_sub_path detail = annotate (sentinel bad_source_sub_path) (text detail)

-- The loop: empty and "." segments are skipped, the first bad one ends it.
unfoldable pub collect_segments : List Str → Result (List Str)
collect_segments [] = ok []
collect_segments (segment ∷ segments) =
    let rest = collect_segments segments in
    if segment == [] || segment == dot
    then rest
    else if segment == dot_dot
    then err (bad_sub_path "source_sub_path must not contain ..")
    else if contains_byte segment 0
    then err (bad_sub_path "source_sub_path contains NUL byte")
    else (do kept ← rest; ok (segment ∷ kept))

-- sourceSubPathSegments
unfoldable pub source_sub_path_segments : Str → Result (List Str)
unfolding collect_segments
source_sub_path_segments p =
    if is_abs p
    then err (bad_sub_path "source_sub_path must be relative")
    else collect_segments (split p slash)
