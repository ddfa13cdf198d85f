-- ===== src/Go/Split.antt =====
-- strings.Split and strings.Join with a separator of one byte.
use kruise_agents_nfs_csi.Prelude.{
  ℕ, ◌≡◌, ◌≢◌, refl, List, [], ◌∷◌, ◌++◌, arith, ◌==◌, nat_eq, All, All-append, if◌then◌else◌,
}
use kruise_agents_nfs_csi.Go.Text.{Str}

-- A byte in front of the first part.
unfoldable pub cons_head : ℕ → List Str → List Str
cons_head c [] = (c ∷ []) ∷ []
cons_head c (part ∷ parts) = (c ∷ part) ∷ parts

-- strings.Split: one part more than there are separators
unfoldable pub split : Str → ℕ → List Str
unfolding cons_head
split [] sep = [] ∷ []
split (c ∷ s) sep = let rest = split s sep in if c == sep then [] ∷ rest else cons_head c rest

-- strings.Join
unfoldable pub join : List Str → ℕ → Str
join [] sep = []
join (part ∷ []) sep = part
join (part ∷ next ∷ parts) sep = part ++ (sep ∷ join (next ∷ parts) sep)

-- The separator is not a byte of the text.
abbrev pub Free : ℕ → Str → Type 0
Free sep = All (λ c. c ≢ sep)

cons_head-Free :
    (c sep : ℕ) (parts : List Str)
    → c ≢ sep
    → All (Free sep) parts
    → All (Free sep) (cons_head c parts)
unfolding cons_head
cons_head-Free c sep [] n h = ((n, tt), tt)
cons_head-Free c sep (part ∷ parts) n h = ((n, h.0), h.1)

pub split-Free : (s : Str) (sep : ℕ) → All (Free sep) (split s sep)
unfolding split
split-Free [] sep = (tt, tt)
split-Free (c ∷ s) sep = ground (arith, cons_head-Free c sep (split s sep), split-Free s sep)

-- A part that is free of the separator comes off whole.
pub split-append :
    (part s : Str) (sep : ℕ) → Free sep part → split (part ++ (sep ∷ s)) sep ≡ part ∷ split s sep
unfolding split
split-append [] s sep h = ground arith
split-append (c ∷ part) s sep h = ground (arith, split-append part s sep h.1)

pub split-Free_one : (part : Str) (sep : ℕ) → Free sep part → split part sep ≡ part ∷ []
unfolding split
split-Free_one [] sep h = refl
split-Free_one (c ∷ part) sep h = ground (arith, split-Free_one part sep h.1)

-- Splitting undoes joining.
pub split-join :
    (part : Str) (parts : List Str) (sep : ℕ)
    → All (Free sep) (part ∷ parts)
    → split (join (part ∷ parts) sep) sep ≡ part ∷ parts
unfolding join
split-join part [] sep h = split-Free_one part sep h.0
split-join part (next ∷ parts) sep h =
    cc (split-append part (join (next ∷ parts) sep) sep h.0, split-join next parts sep h.1)

-- A property of every byte passes to the parts.
cons_head-All :
    (P : ℕ → Type 0) (c : ℕ) (parts : List Str)
    → P c
    → All (All P) parts
    → All (All P) (cons_head c parts)
unfolding cons_head
cons_head-All P c [] n h = ((n, tt), tt)
cons_head-All P c (part ∷ parts) n h = ((n, h.0), h.1)

pub split-All : (P : ℕ → Type 0) (s : Str) (sep : ℕ) → All P s → All (All P) (split s sep)
unfolding split
split-All P [] sep h = (tt, tt)
split-All P (c ∷ s) sep h =
    ground (arith, cons_head-All P c (split s sep) h.0, split-All P s sep h.1)

pub join-All :
    (P : ℕ → Type 0) (sep : ℕ) (parts : List Str)
    → P sep
    → All (All P) parts
    → All P (join parts sep)
unfolding join
join-All P sep [] p h = tt
join-All P sep (part ∷ []) p h = h.0
join-All P sep (part ∷ next ∷ parts) p h =
    All-append P part (sep ∷ join (next ∷ parts) sep) h.0 (p, join-All P sep (next ∷ parts) p h.1)

pub join-cons_head :
    (c sep : ℕ) (part : Str) (parts : List Str)
    → join (cons_head c (part ∷ parts)) sep ≡ c ∷ join (part ∷ parts) sep
unfolding join cons_head
join-cons_head c sep part [] = refl
join-cons_head c sep part (next ∷ parts) = refl
