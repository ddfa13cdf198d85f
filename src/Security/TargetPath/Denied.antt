-- ===== src/Security/TargetPath/Denied.antt =====
-- The denied target paths of internal/security/targetpath.go as directories: lists of parts.
use kruise_agents_nfs_csi.Prelude.{
  ◌≡◌, ◌≢◌, refl, ap, Bool, true, false, ◌&&◌, ◌||◌, List, [], ◌∷◌, ◌++◌, arith, ◌==◌, All, any,
  map, append_assoc, nat_eq, ◌∙◌,
}
use kruise_agents_nfs_csi.Go.Text.{Str, codes, str_eq, strs_eq, has_prefix, has_prefix-append}
use kruise_agents_nfs_csi.Go.Split.{Free, join}
use kruise_agents_nfs_csi.Security.TargetPath.{
  denied_exact, denied_prefixes, denied_files, hits_prefix,
}
use kruise_agents_nfs_csi.Go.Clean.{slash, render, Proper, clean_parts-render, All-Free}

-- The directory is the location or lies above it.
unfoldable pub is_above : List Str → List Str → Bool
is_above [] parts = true
is_above (d ∷ dir) [] = false
is_above (d ∷ dir) (part ∷ parts) = d == part && is_above dir parts

-- Each part with a slash behind it.
pub encode : List Str → Str
encode [] = []
encode (part ∷ parts) = part ++ (slash ∷ encode parts)

has_prefix-part :
    (part d s t : Str)
    → Free slash part
    → Free slash d
    → has_prefix (part ++ (slash ∷ s)) (d ++ (slash ∷ t)) ≡ (d == part && has_prefix s t)
unfolding has_prefix
has_prefix-part [] [] s t f g = ground arith
has_prefix-part [] (b ∷ d) s t f g = ground arith
has_prefix-part (a ∷ part) [] s t f g = ground arith
has_prefix-part (a ∷ part) (b ∷ d) s t f g = ground (arith, has_prefix-part part d s t f.1 g.1)

has_prefix-nil : (d t : Str) → has_prefix [] (d ++ (slash ∷ t)) ≡ false
unfolding has_prefix
has_prefix-nil [] t = refl
has_prefix-nil (b ∷ d) t = refl

has_prefix-encode :
    (parts dir : List Str)
    → All (Free slash) parts
    → All (Free slash) dir
    → has_prefix (encode parts) (encode dir) ≡ is_above dir parts
unfolding has_prefix encode is_above
has_prefix-encode parts [] f g = refl
has_prefix-encode [] (d ∷ dir) f g = has_prefix-nil d (encode dir)
has_prefix-encode (part ∷ parts) (d ∷ dir) f g = rw (
  has_prefix-part part d (encode parts) (encode dir) f.0 g.0,
  has_prefix-encode parts dir f.1 g.1,
)

join-encode :
    (part : Str) (parts : List Str)
    → join (part ∷ parts) slash ++ (slash ∷ []) ≡ encode (part ∷ parts)
unfolding join encode
join-encode part [] = refl
join-encode part (next ∷ parts) =
    append_assoc part (slash ∷ join (next ∷ parts) slash) (slash ∷ [])
    ∙ ap (λ s. part ++ (slash ∷ s)) (join-encode next parts)

-- A denied prefix: the directory's parts, each between slashes.
abbrev pub prefix_of : List Str → Str
prefix_of dir = slash ∷ encode dir

-- At the root neither test fires.
hits-root :
    (d : Str) (dir : List Str)
    → Proper d
    → hits_prefix (render true []) (prefix_of (d ∷ dir)) ≡ false
unfolding hits_prefix render join encode has_prefix
hits-root [] dir p = absurd (p.ne_nil refl)
hits-root (b ∷ d) dir p = ground (arith, p.free.0)

-- The second test adds nothing.
hits_prefix-eq : (c p : Str) → hits_prefix c p ≡ has_prefix (c ++ (slash ∷ [])) p
unfolding hits_prefix
hits_prefix-eq c p = ground (arith, has_prefix-append c (slash ∷ []) p)

has_prefix-slash : (s t : Str) → has_prefix (slash ∷ s) (slash ∷ t) ≡ has_prefix s t
unfolding has_prefix
has_prefix-slash s t = ground arith

-- The string tests of one denied prefix, on a rendered path, compare parts.
hits_prefix-prefix_of :
    (parts : List Str) (d : Str) (dir : List Str)
    → All Proper parts
    → All Proper (d ∷ dir)
    → hits_prefix (render true parts) (prefix_of (d ∷ dir)) ≡ is_above (d ∷ dir) parts
unfolding is_above render
hits_prefix-prefix_of [] d dir h g = hits-root d dir g.0
hits_prefix-prefix_of (part ∷ parts) d dir h g =
    hits_prefix-eq _ _
    ∙ has_prefix-slash (join (part ∷ parts) slash ++ (slash ∷ [])) (encode (d ∷ dir))
    ∙ ap (λ s. has_prefix s (encode (d ∷ dir))) (join-encode part parts)
    ∙ has_prefix-encode (part ∷ parts) (d ∷ dir) (All-Free (part ∷ parts) h) (All-Free (d ∷ dir) g)

-- A rendered path determines its parts.
render-injective :
    (parts others : List Str)
    → All Proper parts
    → All Proper others
    → render true parts ≡ render true others
    → parts ≡ others
render-injective parts others h g e = cc (clean_parts-render parts h, clean_parts-render others g)

render-== :
    (parts others : List Str)
    → All Proper parts
    → All Proper others
    → (render true parts == render true others) ≡ (parts == others)
render-== parts others h g = ground (arith, render-injective parts others h g)

-- Membership of the rendered path in rendered names is membership of its parts.
pub any-render :
    (parts : List Str) (names : List (List Str))
    → All Proper parts
    → All (All Proper) names
    → any (λ p. p == render true parts) (map (render true) names) ≡ any (λ q. q == parts) names
unfolding any
any-render parts [] h g = refl
any-render parts (name ∷ names) h g = rw (render-== name parts g.0 h, any-render parts names h g.1)

abbrev pub ProperDir : List Str → Type 0
ProperDir dir = (dir ≢ []) × All Proper dir

pub any-hits :
    (parts : List Str) (dirs : List (List Str))
    → All Proper parts
    → All ProperDir dirs
    → any (hits_prefix (render true parts)) (map prefix_of dirs) ≡ any (λ d. is_above d parts) dirs
unfolding any
any-hits parts [] h g = refl
any-hits parts ([] ∷ dirs) h g = absurd (g.0.0 refl)
any-hits parts ((d ∷ dir) ∷ dirs) h g =
    rw (hits_prefix-prefix_of parts d dir h g.0.1, any-hits parts dirs h g.1)

unfoldable pub exact_parts : List (List Str)
unfolding codes
exact_parts = [] ∷ (codes "proc" ∷ []) ∷ (codes "sys" ∷ []) ∷ (codes "dev" ∷ []) ∷ []

unfoldable pub file_parts : List (List Str)
unfolding codes
file_parts =
    (codes "etc" ∷ codes "passwd" ∷ [])
    ∷ (codes "etc" ∷ codes "shadow" ∷ [])
    ∷ (codes "etc" ∷ codes "group" ∷ [])
    ∷ []

unfoldable pub denied_dirs : List (List Str)
unfolding codes
denied_dirs =
    (codes "proc" ∷ [])
    ∷ (codes "sys" ∷ [])
    ∷ (codes "dev" ∷ [])
    ∷ (codes "run" ∷ codes "secrets" ∷ [])
    ∷ (codes "var" ∷ codes "run" ∷ codes "secrets" ∷ [])
    ∷ (codes "etc" ∷ codes "kubernetes" ∷ [])
    ∷ (codes "etc" ∷ codes "ssl" ∷ codes "private" ∷ [])
    ∷ (codes "root" ∷ codes ".kube" ∷ [])
    ∷ (codes "var" ∷ codes "lib" ∷ codes "kubelet" ∷ [])
    ∷ (codes "var" ∷ codes "lib" ∷ codes "kruise-agents-nfs-csi" ∷ [])
    ∷ []

-- The location is denied: it is the root or a denied name, or lies in a denied directory.
unfoldable pub forbidden : List Str → Bool
forbidden parts =
    any (λ q. q == parts) exact_parts
    || any (λ q. q == parts) file_parts
    || any (λ d. is_above d parts) denied_dirs

pub exact-eq : denied_exact ≡ map (render true) exact_parts
unfolding denied_exact exact_parts render join
exact-eq = refl

pub files-eq : denied_files ≡ map (render true) file_parts
unfolding denied_files file_parts render join
files-eq = refl

pub prefixes-eq : denied_prefixes ≡ map prefix_of denied_dirs
unfolding denied_prefixes denied_dirs encode
prefixes-eq = refl
