-- ===== src/Node/NfsPath.antt =====
-- internal/node/nfspath.go
pub mod Checked
use kruise_agents_nfs_csi.Prelude.{Bool, ◌&&◌, [], ◌∷◌, ◌==◌, if◌then◌else◌}
use kruise_agents_nfs_csi.Go.Text.{Str, str_eq, contains_byte, trim_left, trim_prefix, trim_space}
use kruise_agents_nfs_csi.Go.Split.{split}
use kruise_agents_nfs_csi.Go.Clean.{slash, clean}
use kruise_agents_nfs_csi.Go.Clean.Kept.{has_dot_dot}
use kruise_agents_nfs_csi.Go.Errors.{Result, ok, text, ◌>>=◌, ◌>>◌, fail_if}
use kruise_agents_nfs_csi.Node.{MountPlan}

-- NormalizeNFSSubDir, from the trimmed value on
unfoldable pub normalize_trimmed : Str → Result Str
normalize_trimmed value = do
  fail_if (contains_byte value 0) (text "nfs subDir contains NUL byte")
  fail_if (has_dot_dot (split value slash)) (text "nfs subDir must not contain ..")
  let cleaned = clean (slash ∷ trim_left value slash)
  ok (if cleaned == slash ∷ [] then [] else trim_prefix cleaned (slash ∷ []))

-- NormalizeNFSSubDir
unfoldable pub normalize_nfs_sub_dir : Str → Result Str
normalize_nfs_sub_dir value = normalize_trimmed (trim_space value)

-- IsNFSExportRoot
unfoldable pub is_nfs_export_root : MountPlan → Bool
is_nfs_export_root plan = plan.pv.sub_dir == [] && plan.source_sub_path == []
