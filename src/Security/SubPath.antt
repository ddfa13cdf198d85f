-- ===== src/Security/SubPath.antt =====
-- internal/security/subpath.go
pub mod Checked
use kruise_agents_nfs_csi.Prelude.{[], ◌==◌, if◌then◌else◌}
use kruise_agents_nfs_csi.Go.Text.{Str, str_eq, contains_byte}
use kruise_agents_nfs_csi.Go.Split.{split}
use kruise_agents_nfs_csi.Go.Clean.{slash, dot, is_abs, clean}
use kruise_agents_nfs_csi.Go.Clean.Kept.{has_dot_dot}
use kruise_agents_nfs_csi.Go.Errors.{Result, ok, text, ◌>>=◌, ◌>>◌, fail_if}

-- The tests behind the empty case; the loop over the segments is `has_dot_dot`.
unfoldable pub validate_relative : Str → Result Str
validate_relative sub_path = do
  fail_if (contains_byte sub_path 0) (text "source_sub_path contains NUL byte")
  fail_if (is_abs sub_path) (text "source_sub_path must be relative")
  fail_if (has_dot_dot (split sub_path slash)) (text "source_sub_path must not contain ..")
  let cleaned = clean sub_path
  ok (if cleaned == dot then [] else cleaned)

-- ValidateSourceSubPath
unfoldable pub validate_source_sub_path : Str → Result Str
unfolding validate_relative
validate_source_sub_path sub_path = if sub_path == [] then ok [] else validate_relative sub_path
