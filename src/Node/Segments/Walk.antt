-- ===== src/Node/Segments/Walk.antt =====
-- The directory walk of internal/node/mounter_linux.go against the request checks.
use kruise_agents_nfs_csi.Prelude.{◌≡◌, ◌≢◌, refl, false, List, [], ◌∷◌, arith, All, ◌∙◌, ap, subst}
use kruise_agents_nfs_csi.Go.Text.{Str, str_eq, contains_byte, contains_byte-All, All-contains_byte}
use kruise_agents_nfs_csi.Go.Split.{split, join, Free, split-Free, split-All}
use kruise_agents_nfs_csi.Go.Clean.{slash, Proper, Proper-of}
use kruise_agents_nfs_csi.Go.Clean.Kept.{has_dot_dot, keep, kept, kept-Proper, kept-join}
use kruise_agents_nfs_csi.Go.Errors.{Result, ok, err}
use kruise_agents_nfs_csi.Security.SubPath.{validate_source_sub_path}
use kruise_agents_nfs_csi.Security.SubPath.Checked.{
  IsSubPath, validate_source_sub_path_iff, join-IsSubPath,
}
use kruise_agents_nfs_csi.Node.Segments.{collect_segments, source_sub_path_segments}

-- A directory entry's name: a proper part without NUL bytes.
abbrev pub IsName : Str → Type 0
IsName s = Proper s × (contains_byte s 0 ≡ false)

abbrev NamesIn : Result (List Str) → Type 0
NamesIn (ok names) = All IsName names
NamesIn (err e) = Unit {0}

collect_segments-NamesIn :
    (segments : List Str) → All (Free slash) segments → NamesIn (collect_segments segments)
unfolding collect_segments
collect_segments-NamesIn [] f = tt
collect_segments-NamesIn (s ∷ segments) f =
    ground (arith, collect_segments-NamesIn segments f.1, Proper-of s f.0)

source_sub_path_segments-NamesIn : (p : Str) → NamesIn (source_sub_path_segments p)
unfolding source_sub_path_segments
source_sub_path_segments-NamesIn p =
    ground (arith, collect_segments-NamesIn (split p slash) (split-Free p slash))

-- Whatever path the mounter is given, each name that it opens is a plain directory entry: not
-- empty, neither "." nor "..", and without slashes and NUL bytes.
pub source_sub_path_segments-IsName :
    (p : Str) (names : List Str) → source_sub_path_segments p ≡ ok names → All IsName names
source_sub_path_segments-IsName p names h = subst NamesIn h (source_sub_path_segments-NamesIn p)

collect_segments-keep :
    (segments : List Str)
    → All (All (λ c. c ≢ 0)) segments
    → has_dot_dot segments ≡ false
    → collect_segments segments ≡ ok (keep segments)
unfolding collect_segments keep has_dot_dot
collect_segments-keep [] z h = refl
collect_segments-keep (s ∷ segments) z h =
    ground (arith, All-contains_byte s 0 z.0, collect_segments-keep segments z.1)

source_sub_path_segments-kept : (p : Str) → IsSubPath p → source_sub_path_segments p ≡ ok (kept p)
unfolding source_sub_path_segments
source_sub_path_segments-kept p h = rw h.relative (
    collect_segments-keep (split p slash)
      (split-All (λ c. c ≢ 0) p slash (contains_byte-All p 0 h.nul_free)) h.confined)

-- A sub-path that the request check has accepted is never refused by the mounter, which opens
-- exactly the names that the request's path has, in order.
pub segments-validate_source_sub_path :
    (p c : Str) → validate_source_sub_path p ≡ ok c → source_sub_path_segments c ≡ ok (kept p)
segments-validate_source_sub_path p c h =
    let (s, e) = (validate_source_sub_path_iff p c).0 h in
    rw e (
      source_sub_path_segments-kept (join (kept p) slash) (join-IsSubPath p s)
      ∙ ap ok (kept-join (kept p) (kept-Proper p s.confined)))
