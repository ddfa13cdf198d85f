-- ===== src/Go/Text.antt =====
-- A Go string is the list of its bytes. Functions of package strings that the source calls.
use Prim.Native.Char.{code}
use kruise_agents_nfs_csi.Prelude.{
  ℕ, ◌≡◌, ◌≢◌, refl, Bool, true, false, ◌&&◌, ◌||◌, List, [], ◌∷◌, ◌++◌, String, reverse, arith,
  ℕ_discrete, Eq, ◌==◌, nat_eq, leb, any, All, if◌then◌else◌,
}

abbrev pub Str : Type 0
Str = List ℕ

-- The bytes of an ASCII literal.
unfoldable pub codes : String → Str
codes String.[] = []
codes (String.◌∷◌ c s) = code c ∷ codes s

unfoldable pub str_dec : Discrete Str
unfolding ℕ_discrete
str_dec = hlevel ℕ_discrete

instance abbrev pub str_eq : Eq Str
str_eq = record { dec = str_dec }

unfoldable pub strs_dec : Discrete (List Str)
unfolding str_dec
strs_dec = hlevel str_dec

instance abbrev pub strs_eq : Eq (List Str)
strs_eq = record { dec = strs_dec }

-- strings.HasPrefix
unfoldable pub has_prefix : Str → Str → Bool
has_prefix s [] = true
has_prefix [] (p ∷ ps) = false
has_prefix (c ∷ s) (p ∷ ps) = c == p && has_prefix s ps

-- strings.TrimPrefix
unfoldable pub drop_prefix : Str → Str → Str
drop_prefix s [] = s
drop_prefix [] (p ∷ ps) = []
drop_prefix (c ∷ s) (p ∷ ps) = drop_prefix s ps

unfoldable pub trim_prefix : Str → Str → Str
unfolding has_prefix drop_prefix
trim_prefix s p = if has_prefix s p then drop_prefix s p else s

-- strings.ContainsRune of an ASCII rune, strings.IndexByte >= 0
unfoldable pub contains_byte : Str → ℕ → Bool
unfolding any
contains_byte s b = any (λ c. c == b) s

-- strings.TrimLeft with a cutset of one byte
unfoldable pub trim_left : Str → ℕ → Str
trim_left [] b = []
trim_left (c ∷ s) b = let rest = trim_left s b in if c == b then rest else c ∷ s

-- unicode.IsSpace on the UTF-8 forms of one, two and three bytes
unfoldable pub space_1 : ℕ → Bool
space_1 a = a == 32 || (leb 9 a && leb a 13)

unfoldable pub space_2 : ℕ → ℕ → Bool
space_2 a b = a == 0xC2 && (b == 0x85 || b == 0xA0)

unfoldable pub space_3 : ℕ → ℕ → ℕ → Bool
space_3 a b c =
    (a == 0xE1 && b == 0x9A && c == 0x80)
    || (a == 0xE2
        && b == 0x80
        && ((leb 0x80 c && leb c 0x8A) || c == 0xA8 || c == 0xA9 || c == 0xAF))
    || (a == 0xE2 && b == 0x81 && c == 0x9F)
    || (a == 0xE3 && b == 0x80 && c == 0x80)

unfoldable pub trim_by : (ℕ → ℕ → Bool) → (ℕ → ℕ → ℕ → Bool) → Str → Str
unfolding space_1
trim_by two three [] = []
trim_by two three (a ∷ []) = if space_1 a then [] else a ∷ []
trim_by two three (a ∷ b ∷ []) =
    let after_one = trim_by two three (b ∷ []) in
    if space_1 a then after_one else if two a b then [] else a ∷ b ∷ []
trim_by two three (a ∷ b ∷ c ∷ s) =
    let after_one = trim_by two three (b ∷ c ∷ s) in
    let after_two = trim_by two three (c ∷ s) in
    let after_three = trim_by two three s in
    if space_1 a
    then after_one
    else if two a b
    then after_two
    else if three a b c
    then after_three
    else a ∷ b ∷ c ∷ s

-- strings.TrimSpace: from the left, then from the right on the reversed bytes
unfoldable pub trim_space : Str → Str
unfolding trim_by space_2 space_3
trim_space s =
    reverse
      (trim_by (λ a b. space_2 b a) (λ a b c. space_3 c b a) (reverse (trim_by space_2 space_3 s)))

trim_space_ascii : trim_space (codes " \t ab c\n") ≡ codes "ab c"
unfolding trim_space codes ℕ_discrete
trim_space_ascii = refl

-- U+3000 before, U+00A0 behind
trim_space_unicode : trim_space (0xE3 ∷ 0x80 ∷ 0x80 ∷ 65 ∷ 0xC2 ∷ 0xA0 ∷ []) ≡ 65 ∷ []
unfolding trim_space ℕ_discrete
trim_space_unicode = refl

pub has_prefix-append : (s t p : Str) → has_prefix s p ≡ true → has_prefix (s ++ t) p ≡ true
unfolding has_prefix
has_prefix-append s t [] h = refl
has_prefix-append [] t (p ∷ ps) h = cc
has_prefix-append (c ∷ s) t (p ∷ ps) h = ground (arith, has_prefix-append s t ps)

pub contains_byte-All : (s : Str) (b : ℕ) → contains_byte s b ≡ false → All (λ c. c ≢ b) s
unfolding contains_byte
contains_byte-All [] b h = tt
contains_byte-All (c ∷ s) b h = ground (arith, contains_byte-All s b)

pub All-contains_byte : (s : Str) (b : ℕ) → All (λ c. c ≢ b) s → contains_byte s b ≡ false
unfolding contains_byte
All-contains_byte [] b h = refl
All-contains_byte (c ∷ s) b h = ground (arith, All-contains_byte s b h.1)
