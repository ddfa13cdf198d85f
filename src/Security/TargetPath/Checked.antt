-- ===== src/Security/TargetPath/Checked.antt =====
-- What ValidateTargetPath of internal/security/targetpath.go accepts.
use kruise_agents_nfs_csi.Prelude.{
  ◌≡◌, refl, Bool, true, false, ◌&&◌, List, [], ◌∷◌, arith, ℕ_discrete, All, if◌then◌else◌, sym,
  subst, ◌∙◌,
}
use kruise_agents_nfs_csi.Go.Text.{Str, str_eq, strs_eq, str_dec, contains_byte}
use kruise_agents_nfs_csi.Go.Clean.{
  is_abs, clean, render, clean_parts, Proper, all_proper, all_proper-Proper, clean_parts-Proper,
  clean_parts-render, clean_idem,
}
use kruise_agents_nfs_csi.Go.Clean.Bytes.{contains_byte-clean, is_abs-clean}
use kruise_agents_nfs_csi.Go.Errors.{ok, err, text}
use kruise_agents_nfs_csi.Security.TargetPath.{is_denied, validate_target_path}
use kruise_agents_nfs_csi.Security.TargetPath.Denied.{
  ProperDir, exact_parts, file_parts, denied_dirs, forbidden, exact-eq, files-eq, prefixes-eq,
  any-render, any-hits,
}

all_names : List (List Str) → Bool
all_names [] = true
all_names (name ∷ names) = all_proper name && all_names names

all_names-Proper : (names : List (List Str)) → all_names names ≡ true → All (All Proper) names
unfolding all_names
all_names-Proper [] h = tt
all_names-Proper (name ∷ names) h = ground (arith, all_proper-Proper name, all_names-Proper names)

all_dirs : List (List Str) → Bool
all_dirs [] = true
all_dirs ([] ∷ dirs) = false
all_dirs ((d ∷ dir) ∷ dirs) = all_proper (d ∷ dir) && all_dirs dirs

all_dirs-Proper : (dirs : List (List Str)) → all_dirs dirs ≡ true → All ProperDir dirs
unfolding all_dirs
all_dirs-Proper [] h = tt
all_dirs-Proper ([] ∷ dirs) h = cc
all_dirs-Proper ((d ∷ dir) ∷ dirs) h =
    ground (arith, all_proper-Proper (d ∷ dir), all_dirs-Proper dirs)

exact-Proper : All (All Proper) exact_parts
unfolding exact_parts all_names all_proper str_dec ℕ_discrete
exact-Proper = all_names-Proper exact_parts refl

files-Proper : All (All Proper) file_parts
unfolding file_parts all_names all_proper str_dec ℕ_discrete
files-Proper = all_names-Proper file_parts refl

dirs-Proper : All ProperDir denied_dirs
unfolding denied_dirs all_dirs all_proper str_dec ℕ_discrete
dirs-Proper = all_dirs-Proper denied_dirs refl

-- On rendered paths the string tests of the code are the tests on parts.
is_denied-render :
    (parts : List Str) → All Proper parts → is_denied (render true parts) ≡ forbidden parts
unfolding is_denied forbidden
is_denied-render parts h = rw (
  exact-eq,
  files-eq,
  prefixes-eq,
  any-render parts exact_parts h exact-Proper,
  any-render parts file_parts h files-Proper,
  any-hits parts denied_dirs h dirs-Proper,
)

-- For an absolute path without a NUL byte the string tests of the code decide a question about
-- the location that the path names: it is refused exactly if its parts are denied.
pub validate_target_path-eq :
    (t : Str)
    → contains_byte t 0 ≡ false
    → is_abs t ≡ true
    → validate_target_path t ≡ (
        if forbidden (clean_parts t)
        then err (text "target path is not allowed")
        else ok (render true (clean_parts t)))
unfolding validate_target_path clean
validate_target_path-eq t z a =
    ground (arith, is_denied-render (clean_parts t) (clean_parts-Proper t a))

-- What an accepted path is: the cleaned form of an absolute path, at a location that is allowed.
pub record IsAllowed (t c : Str) : Type 0 where
  pub absolute : is_abs t ≡ true
  pub cleaned : c ≡ render true (clean_parts t)
  pub parts : clean_parts c ≡ clean_parts t
  pub proper : All Proper (clean_parts c)
  pub allowed : forbidden (clean_parts c) ≡ false

validate_target_path-inv :
    (t c : Str)
    → validate_target_path t ≡ ok c
    → (contains_byte t 0 ≡ false)
      × (is_abs t ≡ true)
      × (is_denied (clean t) ≡ false)
      × (clean t ≡ c)
unfolding validate_target_path
validate_target_path-inv t c h = ground arith

render-IsAllowed :
    (t : Str)
    → is_abs t ≡ true
    → is_denied (render true (clean_parts t)) ≡ false
    → IsAllowed t (render true (clean_parts t))
render-IsAllowed t a d =
    let p = clean_parts-Proper t a in
    let e = clean_parts-render (clean_parts t) p in
    record {
      absolute = a;
      cleaned = refl;
      parts = e;
      proper = rw e p;
      allowed = rw e (sym (is_denied-render (clean_parts t) p) ∙ d);
    }

clean-validate :
    (t : Str)
    → contains_byte t 0 ≡ false
    → is_abs t ≡ true
    → is_denied (clean t) ≡ false
    → validate_target_path (clean t) ≡ ok (clean t)
unfolding validate_target_path
clean-validate t z a d =
    ground (arith, clean_idem t a, contains_byte-clean t 0, is_abs-clean t a, d)

-- Whatever the check accepts is the cleaned form of an absolute path, and no denied directory is
-- at or above the location, nor is it the root or a denied file.
pub validate_target_path-IsAllowed : (t c : Str) → validate_target_path t ≡ ok c → IsAllowed t c
unfolding clean
validate_target_path-IsAllowed t c h =
    let (z, a, d, e) = validate_target_path-inv t c h in
    subst (IsAllowed t) (rw a at e) (render-IsAllowed t a (rw a at d))

-- Checking an accepted path again accepts it, unchanged.
pub validate_target_path_idem :
    (t c : Str) → validate_target_path t ≡ ok c → validate_target_path c ≡ ok c
validate_target_path_idem t c h =
    let (z, a, d, e) = validate_target_path-inv t c h in
    subst (λ x. validate_target_path x ≡ ok x) e (clean-validate t z a d)
