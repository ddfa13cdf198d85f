-- ===== src/Node/MountInfo/Nested.antt =====
-- mountPointsUnderRoot of internal/node/mounter_linux.go: inner mounts come before outer ones.
use kruise_agents_nfs_csi.Prelude.{
  ℕ, ◌≡◌, ◌≤◌, refl, subst, ◌∙◌, Bool, true, false, ◌&&◌, ◌||◌, List, [], ◌∷◌, ◌++◌, Option, none,
  some, arith, nat_eq, ltb, length, length-append, any, All, ◌==◌, Bool-cases, inl, inr,
}
use kruise_agents_nfs_csi.Go.Text.{Str, str_eq, has_prefix}
use kruise_agents_nfs_csi.Go.Clean.{slash, clean}
use kruise_agents_nfs_csi.Go.Errors.{ok}
use kruise_agents_nfs_csi.Node.MountInfo.{
  Scanned, names_path, mount_path, collect_under, keep_under, place_path, sort_paths,
  mount_points_under_root,
}

has_prefix-length : (s p : Str) → has_prefix s p ≡ true → length p ≤ length s
unfolding has_prefix
has_prefix-length s [] h = omega arith
has_prefix-length [] (p ∷ ps) h = cc
has_prefix-length (c ∷ s) (p ∷ ps) h = ground (arith, has_prefix-length s ps)

-- The mount is not below the path.
abbrev pub IsNotBelow : Str → Str → Type 0
IsNotBelow path mount = has_prefix mount (path ++ (slash ∷ [])) ≡ false

short-IsNotBelow : (path mount : Str) → length mount ≤ length path → IsNotBelow path mount
short-IsNotBelow path mount h = elim (Bool-cases (has_prefix mount (path ++ (slash ∷ [])))) [
  | inl t ↦ absurd (
      omega (
        arith,
        h,
        has_prefix-length mount (path ++ (slash ∷ [])) t,
        length-append path (slash ∷ []),
      ))
  | inr f ↦ f
]

-- No path is longer than the number.
abbrev Within : ℕ → List Str → Type 0
Within n = All (λ (q : Str). length q ≤ n)

Within-mono : (n m : ℕ) (mounts : List Str) → n ≤ m → Within n mounts → Within m mounts
Within-mono n m [] h w = tt
Within-mono n m (q ∷ mounts) h w = (omega (arith, w.0), Within-mono n m mounts h w.1)

-- Each path is at least as long as those behind it.
abbrev Falling : List Str → Type 0
Falling [] = Unit
Falling (path ∷ mounts) = Within (length path) mounts × Falling mounts

place_path-Within :
    (n : ℕ) (path : Str) (mounts : List Str)
    → length path ≤ n
    → Within n mounts
    → Within n (place_path path mounts)
unfolding place_path
place_path-Within n path [] h w = (h, tt)
place_path-Within n path (next ∷ mounts) h w = ground (arith, place_path-Within n path mounts h w.1)

place_path-Falling :
    (path : Str) (mounts : List Str) → Falling mounts → Falling (place_path path mounts)
unfolding place_path
place_path-Falling path [] f = (tt, tt)
place_path-Falling path (next ∷ mounts) f = elim (Bool-cases (ltb (length path) (length next))) [
  | inl t ↦ rw t (
    place_path-Within (length next) path mounts (ground arith) f.0,
    place_path-Falling path mounts f.1,
  )
  | inr t ↦
      rw t ((ground arith, Within-mono (length next) (length path) mounts (ground arith) f.0), f)
]

sort_paths-Falling : (mounts : List Str) → Falling (sort_paths mounts)
unfolding sort_paths
sort_paths-Falling [] = tt
sort_paths-Falling (path ∷ mounts) =
    place_path-Falling path (sort_paths mounts) (sort_paths-Falling mounts)

-- No mount comes behind one that it is below.
abbrev pub InnerFirst : List Str → Type 0
InnerFirst [] = Unit
InnerFirst (path ∷ mounts) = All (IsNotBelow path) mounts × InnerFirst mounts

Within-IsNotBelow :
    (path : Str) (mounts : List Str) → Within (length path) mounts → All (IsNotBelow path) mounts
Within-IsNotBelow path [] w = tt
Within-IsNotBelow path (q ∷ mounts) w =
    (short-IsNotBelow path q w.0, Within-IsNotBelow path mounts w.1)

Falling-InnerFirst : (mounts : List Str) → Falling mounts → InnerFirst mounts
Falling-InnerFirst [] f = tt
Falling-InnerFirst (path ∷ mounts) f =
    (Within-IsNotBelow path mounts f.0, Falling-InnerFirst mounts f.1)

-- Whether a path is in a list.
abbrev pub lists_path : Str → List Str → Bool
lists_path path mounts = any (λ q. q == path) mounts

lists-place_path :
    (p path : Str) (mounts : List Str)
    → lists_path p (place_path path mounts) ≡ (path == p || lists_path p mounts)
unfolding place_path any
lists-place_path p path [] = refl
lists-place_path p path (next ∷ mounts) = ground (arith, lists-place_path p path mounts)

lists-sort_paths :
    (p : Str) (mounts : List Str) → lists_path p (sort_paths mounts) ≡ lists_path p mounts
unfolding sort_paths any
lists-sort_paths p [] = refl
lists-sort_paths p (path ∷ mounts) =
    ground (arith, lists-place_path p path (sort_paths mounts), lists-sort_paths p mounts)

-- Some line of the file has the path as its mount point.
abbrev pub is_mounted_in : Str → List Str → Bool
is_mounted_in path lines = any (λ line. names_path path (mount_path line)) lines

lists-keep_under :
    (p prefix : Str) (o : Option Str) (mounts : List Str)
    → lists_path p (keep_under prefix o mounts)
      ≡ ((has_prefix p prefix && names_path p o) || lists_path p mounts)
unfolding keep_under names_path any
lists-keep_under p prefix none mounts = ground arith
lists-keep_under p prefix (some mounted) mounts = ground arith

lists-collect_under :
    (p prefix : Str) (lines : List Str)
    → lists_path p (collect_under prefix lines) ≡ (has_prefix p prefix && is_mounted_in p lines)
unfolding collect_under any
lists-collect_under p prefix [] = ground arith
lists-collect_under p prefix (line ∷ lines) = ground (
  arith,
  lists-keep_under p prefix (mount_path line) (collect_under prefix lines),
  lists-collect_under p prefix lines,
)

mount_points-eq :
    (file : Scanned) (root : Str) (mounts : List Str)
    → mount_points_under_root (ok file) root ≡ ok mounts
    → sort_paths (collect_under (clean root ++ (slash ∷ [])) file.lines) ≡ mounts
unfolding mount_points_under_root
mount_points-eq file root mounts h = ground arith

mount_points_under_root-InnerFirst :
    (file : Scanned) (root : Str) (mounts : List Str)
    → mount_points_under_root (ok file) root ≡ ok mounts
    → InnerFirst mounts
mount_points_under_root-InnerFirst file root mounts h =
    let found = collect_under (clean root ++ (slash ∷ [])) file.lines in
    subst InnerFirst (mount_points-eq file root mounts h)
      (Falling-InnerFirst (sort_paths found) (sort_paths-Falling found))

lists-mount_points_under_root :
    (file : Scanned) (root : Str) (mounts : List Str) (p : Str)
    → mount_points_under_root (ok file) root ≡ ok mounts
    → lists_path p mounts
      ≡ (has_prefix p (clean root ++ (slash ∷ [])) && is_mounted_in p file.lines)
lists-mount_points_under_root file root mounts p h =
    let prefix = clean root ++ (slash ∷ []) in
    subst (λ ms. lists_path p ms ≡ (has_prefix p prefix && is_mounted_in p file.lines))
      (mount_points-eq file root mounts h)
      (lists-sort_paths p (collect_under prefix file.lines)
        ∙ lists-collect_under p prefix file.lines)

-- If mountPointsUnderRoot returns mounts, then none of them comes behind one that it is below, and
-- they are exactly the mount points of the file that are below the root.
pub mount_points_under_root-Found :
    (file : Scanned) (root : Str) (mounts : List Str)
    → mount_points_under_root (ok file) root ≡ ok mounts
    → InnerFirst mounts
      × ((p : Str)
          → lists_path p mounts
            ≡ (has_prefix p (clean root ++ (slash ∷ [])) && is_mounted_in p file.lines))
mount_points_under_root-Found file root mounts h = (
  mount_points_under_root-InnerFirst file root mounts h,
  λ p. lists-mount_points_under_root file root mounts p h,
)
