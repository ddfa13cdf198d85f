-- ===== src/Security/TargetPath.antt =====
-- internal/security/targetpath.go
pub mod Denied
pub mod Checked
use kruise_agents_nfs_csi.Prelude.{Bool, not, ◌||◌, List, [], ◌∷◌, ◌++◌, ◌==◌, any}
use kruise_agents_nfs_csi.Go.Text.{Str, codes, str_eq, has_prefix, contains_byte}
use kruise_agents_nfs_csi.Go.Clean.{slash, is_abs, clean}
use kruise_agents_nfs_csi.Go.Errors.{Result, ok, text, ◌>>◌, fail_if}

-- deniedExactTargetPaths
unfoldable pub denied_exact : List Str
unfolding codes
denied_exact = codes "/" ∷ codes "/proc" ∷ codes "/sys" ∷ codes "/dev" ∷ []

-- deniedTargetPrefixes
unfoldable pub denied_prefixes : List Str
unfolding codes
denied_prefixes =
    codes "/proc/"
    ∷ codes "/sys/"
    ∷ codes "/dev/"
    ∷ codes "/run/secrets/"
    ∷ codes "/var/run/secrets/"
    ∷ codes "/etc/kubernetes/"
    ∷ codes "/etc/ssl/private/"
    ∷ codes "/root/.kube/"
    ∷ codes "/var/lib/kubelet/"
    ∷ codes "/var/lib/kruise-agents-nfs-csi/"
    ∷ []

-- deniedTargetFiles
unfoldable pub denied_files : List Str
unfolding codes
denied_files = codes "/etc/passwd" ∷ codes "/etc/shadow" ∷ codes "/etc/group" ∷ []

-- The test of the loop over deniedTargetPrefixes.
unfoldable pub hits_prefix : Str → Str → Bool
hits_prefix cleaned prefix =
    has_prefix (cleaned ++ (slash ∷ [])) prefix || has_prefix cleaned prefix

-- The tests on the cleaned path.
unfoldable pub is_denied : Str → Bool
unfolding hits_prefix any
is_denied cleaned =
    any (λ p. p == cleaned) denied_exact
    || any (λ p. p == cleaned) denied_files
    || any (hits_prefix cleaned) denied_prefixes

-- ValidateTargetPath
unfoldable pub validate_target_path : Str → Result Str
validate_target_path target_path = do
  fail_if (contains_byte target_path 0) (text "target path contains NUL byte")
  fail_if (not (is_abs target_path)) (text "target path must be absolute")
  let cleaned = clean target_path
  fail_if (is_denied cleaned) (text "target path is not allowed")
  ok cleaned
