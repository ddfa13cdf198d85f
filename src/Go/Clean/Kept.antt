-- ===== src/Go/Clean/Kept.antt =====
-- Without ".." parts, path.Clean drops the empty and "." parts and keeps the others in order.
use kruise_agents_nfs_csi.Prelude.{
  ℕ, ◌≡◌, refl, ap, Bool, false, ◌||◌, List, [], ◌∷◌, ◌++◌, arith, reverse, ℕ_discrete, nat_eq,
  ◌==◌, All, any, append_assoc, append-nil, ◌∙◌, if◌then◌else◌,
}
use mathlib.Core.List.{reverse-cons}
use kruise_agents_nfs_csi.Go.Text.{Str, str_eq, str_dec, trim_left}
use kruise_agents_nfs_csi.Go.Split.{split, join, Free, split-Free, split-join}
use kruise_agents_nfs_csi.Go.Clean.{
  slash, dot, dot_dot, enter, resolve, Proper, Proper-of, All-Free,
}

unfoldable pub keep : List Str → List Str
keep [] = []
keep (part ∷ parts) =
    let rest = keep parts in if part == [] || part == dot then rest else part ∷ rest

-- The loop that refuses ".." segments.
unfoldable pub has_dot_dot : List Str → Bool
unfolding any
has_dot_dot parts = any (λ part. part == dot_dot) parts

append-cons : (xs ys : List Str) (x : Str) → (xs ++ (x ∷ [])) ++ ys ≡ xs ++ (x ∷ ys)
append-cons xs ys x = append_assoc xs (x ∷ []) ys

pub resolve-keep :
    (rooted : Bool) (stack parts : List Str)
    → has_dot_dot parts ≡ false
    → resolve rooted stack parts ≡ reverse stack ++ keep parts
unfolding resolve keep has_dot_dot enter
resolve-keep rooted stack [] h = rw append-nil
resolve-keep rooted stack (part ∷ parts) h = ground (
  arith,
  resolve-keep rooted stack parts,
  resolve-keep rooted (part ∷ stack) parts,
  reverse-cons part stack,
  append-cons (reverse stack) (keep parts) part,
)

pub keep-Proper :
    (parts : List Str)
    → All (Free slash) parts
    → has_dot_dot parts ≡ false
    → All Proper (keep parts)
unfolding keep has_dot_dot
keep-Proper [] f h = tt
keep-Proper (part ∷ parts) f h = ground (arith, Proper-of part f.0, keep-Proper parts f.1)

pub keep-Proper_self : (parts : List Str) → All Proper parts → keep parts ≡ parts
unfolding keep
keep-Proper_self [] h = refl
keep-Proper_self (part ∷ parts) h = ground (arith, keep-Proper_self parts h.1)

pub has_dot_dot-Proper : (parts : List Str) → All Proper parts → has_dot_dot parts ≡ false
unfolding has_dot_dot
has_dot_dot-Proper [] h = refl
has_dot_dot-Proper (part ∷ parts) h = ground (arith, has_dot_dot-Proper parts h.1)

-- The parts of a text that has no "..".
abbrev pub kept : Str → List Str
kept p = keep (split p slash)

pub kept-Proper : (p : Str) → has_dot_dot (split p slash) ≡ false → All Proper (kept p)
kept-Proper p h = keep-Proper (split p slash) (split-Free p slash) h

-- Proper parts are found again in their joined form.
pub kept-join : (parts : List Str) → All Proper parts → kept (join parts slash) ≡ parts
unfolding keep split join str_dec ℕ_discrete
kept-join [] h = refl
kept-join (part ∷ parts) h =
    ap keep (split-join part parts slash (All-Free (part ∷ parts) h))
    ∙ keep-Proper_self (part ∷ parts) h

pub has_dot_dot-join :
    (parts : List Str) → All Proper parts → has_dot_dot (split (join parts slash) slash) ≡ false
unfolding has_dot_dot split join str_dec ℕ_discrete
has_dot_dot-join [] h = refl
has_dot_dot-join (part ∷ parts) h =
    ap has_dot_dot (split-join part parts slash (All-Free (part ∷ parts) h))
    ∙ has_dot_dot-Proper (part ∷ parts) h

-- Leading slashes add no parts.
pub kept-trim_left : (p : Str) → kept (trim_left p slash) ≡ kept p
unfolding trim_left keep split
kept-trim_left [] = refl
kept-trim_left (c ∷ p) = ground (arith, kept-trim_left p)

pub has_dot_dot-trim_left :
    (p : Str) → has_dot_dot (split (trim_left p slash) slash) ≡ has_dot_dot (split p slash)
unfolding trim_left has_dot_dot split
has_dot_dot-trim_left [] = refl
has_dot_dot-trim_left (c ∷ p) = ground (arith, has_dot_dot-trim_left p)

pub keep-All : (P : ℕ → Type 0) (parts : List Str) → All (All P) parts → All (All P) (keep parts)
unfolding keep
keep-All P [] h = tt
keep-All P (part ∷ parts) h = ground (arith, keep-All P parts h.1)
