-- ===== src/Go/Search.antt =====
-- Functions of package strings that look for one text in another, and path.Join.
use kruise_agents_nfs_csi.Prelude.{
  ℕ, ◌≡◌, refl, ap, Bool, true, ◌||◌, List, [], ◌∷◌, ◌++◌, Option, none, some, arith, ◌==◌, nat_eq,
  map, if◌then◌else◌, Bool-cases, inl, inr,
}
use kruise_agents_nfs_csi.Go.Text.{Str, str_eq, has_prefix, drop_prefix}
use kruise_agents_nfs_csi.Go.Split.{join}
use kruise_agents_nfs_csi.Go.Clean.{slash, clean}

-- strings.Contains
unfoldable pub contains : Str → Str → Bool
contains [] needle = has_prefix [] needle
contains (c ∷ s) needle = has_prefix (c ∷ s) needle || contains s needle

-- strings.ReplaceAll of one byte by another
unfoldable pub replace_all : ℕ → ℕ → Str → Str
replace_all old new s = map (λ c. if c == old then new else c) s

-- What follows the first occurrence of a text, the second value of strings.Cut.
unfoldable pub cut_after : Str → Str → Option Str
cut_after [] separator = if has_prefix [] separator then some [] else none
cut_after (c ∷ s) separator =
    let rest = cut_after s separator in
    if has_prefix (c ∷ s) separator then some (drop_prefix (c ∷ s) separator) else rest

-- The text before the last byte of this value and the text behind it, as strings.LastIndex gives them.
unfoldable pub cut_last : Str → ℕ → Option (Str × Str)
cut_last [] b = none
cut_last (c ∷ s) b = elim (cut_last s b) [
  | some p ↦ some (c ∷ p.0, p.1)
  | none ↦ if c == b then some ([], s) else none
]

-- path.Join: the empty elements in front are dropped.
unfoldable pub path_join : List Str → Str
path_join [] = []
path_join ([] ∷ elements) = path_join elements
path_join ((c ∷ element) ∷ elements) = clean (join ((c ∷ element) ∷ elements) slash)

-- A text occurs in another exactly if the other is something before it, it, and something behind.
has_prefix-split : (s p : Str) → has_prefix s p ≡ true → (t : Str) × (s ≡ p ++ t)
unfolding has_prefix
has_prefix-split s [] h = (s, refl)
has_prefix-split [] (p ∷ ps) h = ground arith
has_prefix-split (c ∷ s) (p ∷ ps) h = ground (arith, has_prefix-split s ps)

pub contains-split :
    (s needle : Str)
    → contains s needle ≡ true
    → (before after : Str) × (s ≡ before ++ (needle ++ after))
unfolding contains
contains-split [] needle h = let (after, e) = has_prefix-split [] needle h in ([], after, e)
contains-split (c ∷ s) needle h = elim (Bool-cases (has_prefix (c ∷ s) needle)) [
  | inl at_start ↦ let (after, e) = has_prefix-split (c ∷ s) needle at_start in ([], after, e)
  | inr later ↦
      let (before, after, e) = contains-split s needle (ground arith) in
      (c ∷ before, after, ap (λ rest. c ∷ rest) e)
]
