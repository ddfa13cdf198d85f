-- ===== src/Go/Fields.antt =====
-- strings.Fields: the parts between runs of white space, which is unicode.IsSpace on UTF-8. The
-- first byte of such a rune is never a later byte of another, so the bytes are read one by one.
use kruise_agents_nfs_csi.Prelude.{
  ℕ, ◌≡◌, refl, ap, ◌∙◌, Bool, false, ◌||◌, List, [], ◌∷◌, ◌++◌, arith, ℕ_discrete, nat_eq,
  if◌then◌else◌,
}
use kruise_agents_nfs_csi.Go.Text.{Str, codes, space_1, space_2, space_3}

-- A part ends: an empty one is dropped.
unfoldable pub flush : Str → List Str → List Str
flush [] parts = parts
flush (c ∷ part) parts = (c ∷ part) ∷ parts

-- The bytes up to the next white space, and the parts behind it.
unfoldable pub scan : Str → Str × List Str
unfolding flush
scan [] = ([], [])
scan (a ∷ []) = if space_1 a then ([], []) else (a ∷ [], [])
scan (a ∷ b ∷ []) =
    let (part, parts) = scan (b ∷ []) in
    if space_1 a
    then ([], flush part parts)
    else if space_2 a b
    then ([], [])
    else (a ∷ part, parts)
scan (a ∷ b ∷ c ∷ s) =
    let (part, parts) = scan (b ∷ c ∷ s) in
    let (part_2, parts_2) = scan (c ∷ s) in
    let (part_3, parts_3) = scan s in
    if space_1 a
    then ([], flush part parts)
    else if space_2 a b
    then ([], flush part_2 parts_2)
    else if space_3 a b c
    then ([], flush part_3 parts_3)
    else (a ∷ part, parts)

-- strings.Fields
unfoldable pub fields : Str → List Str
unfolding scan flush
fields s = let (part, parts) = scan s in flush part parts

fields_mixed :
    fields (codes "  ab \tc\n" ++ (0xC2 ∷ 0xA0 ∷ 100 ∷ []))
    ≡ codes "ab" ∷ codes "c" ∷ codes "d" ∷ []
unfolding fields codes ℕ_discrete space_1 space_2 space_3
fields_mixed = refl

-- Text without white space in it.
abbrev pub IsUnbroken : Str → Type 0
IsUnbroken s = scan s ≡ (s, [])

-- The text starts with white space.
starts_space : Str → Bool
starts_space [] = false
starts_space (a ∷ []) = space_1 a
starts_space (a ∷ b ∷ []) = space_1 a || space_2 a b
starts_space (a ∷ b ∷ c ∷ s) = space_1 a || space_2 a b || space_3 a b c

scan_on :
    (a : ℕ) (s : Str) → starts_space (a ∷ s) ≡ false → scan (a ∷ s) ≡ (a ∷ (scan s).0, (scan s).1)
unfolding scan starts_space
scan_on a [] h = ground arith
scan_on a (b ∷ []) h = ground arith
scan_on a (b ∷ c ∷ s) h = ground arith

-- Text without white space starts with none, at any byte.
IsUnbroken-starts_space : (a : ℕ) (s : Str) → IsUnbroken (a ∷ s) → starts_space (a ∷ s) ≡ false
unfolding scan starts_space
IsUnbroken-starts_space a [] h = ground arith
IsUnbroken-starts_space a (b ∷ []) h = ground arith
IsUnbroken-starts_space a (b ∷ c ∷ s) h = ground arith

pub IsUnbroken-tail : (a : ℕ) (s : Str) → IsUnbroken (a ∷ s) → IsUnbroken s
IsUnbroken-tail a s h = ground (arith, h, scan_on a s (IsUnbroken-starts_space a s h))

-- A space behind the text ends no rune of it.
starts_space-append :
    (a : ℕ) (s t : Str) → starts_space (a ∷ s) ≡ false → starts_space (a ∷ (s ++ (32 ∷ t))) ≡ false
unfolding starts_space space_2 space_3
starts_space-append a [] [] h = ground arith
starts_space-append a [] (b ∷ t) h = ground arith
starts_space-append a (b ∷ []) t h = ground arith
starts_space-append a (b ∷ c ∷ s) t h = h

scan_space : (t : Str) → scan (32 ∷ t) ≡ ([], fields t)
unfolding scan fields space_1 ℕ_discrete
scan_space [] = refl
scan_space (a ∷ []) = refl
scan_space (a ∷ b ∷ t) = refl

-- A text without white space comes off whole at the next space.
pub scan-append : (s t : Str) → IsUnbroken s → scan (s ++ (32 ∷ t)) ≡ (s, fields t)
scan-append [] t h = scan_space t
scan-append (a ∷ s) t h =
    scan_on a (s ++ (32 ∷ t)) (starts_space-append a s t (IsUnbroken-starts_space a s h))
    ∙ ap (λ (part, parts). (a ∷ part, parts)) (scan-append s t (IsUnbroken-tail a s h))

-- The fields of a line in which such texts stand between single spaces.
pub fields-append :
    (c : ℕ) (s t : Str) → IsUnbroken (c ∷ s) → fields ((c ∷ s) ++ (32 ∷ t)) ≡ (c ∷ s) ∷ fields t
unfolding fields flush
fields-append c s t h = rw (scan-append (c ∷ s) t h) refl
