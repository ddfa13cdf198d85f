-- ===== src/Client/Token.antt =====
-- The token of mounter/client.go in the header that internal/wrapper/server.go reads.
use kruise_agents_nfs_csi.Prelude.{
  ℕ, ◌≡◌, ◌≢◌, ◌≤◌, refl, ap, ◌∙◌, Bool, true, false, [], ◌∷◌, ◌++◌, arith, reverse, nat_eq, All,
  All-reverse,
}
use mathlib.Core.List.{reverse-reverse}
use kruise_agents_nfs_csi.Go.Text.{
  Str, codes, str_eq, has_prefix, drop_prefix, trim_prefix, trim_space, trim_by, space_1, space_2,
  space_3,
}
use kruise_agents_nfs_csi.Go.Errors.{ok}
use kruise_agents_nfs_csi.Wrapper.Server.Http.{bearer, bearer_token}

-- A visible ASCII character.
abbrev pub IsVisible : ℕ → Type 0
IsVisible c = (0x21 ≤ c) × (c ≤ 0x7e)

trim_by-visible :
    (two : ℕ → ℕ → Bool) (three : ℕ → ℕ → ℕ → Bool) (s : Str)
    → ((a b : ℕ) → IsVisible a → two a b ≡ false)
    → ((a b c : ℕ) → IsVisible a → three a b c ≡ false)
    → All IsVisible s
    → trim_by two three s ≡ s
unfolding trim_by space_1
trim_by-visible two three [] h k v = refl
trim_by-visible two three (a ∷ []) h k v = ground (arith, v)
trim_by-visible two three (a ∷ b ∷ []) h k v = ground (arith, v, h a b v.0)
trim_by-visible two three (a ∷ b ∷ c ∷ s) h k v = ground (arith, v, h a b v.0, k a b c v.0)

-- Nothing is trimmed of visible text.
pub trim_space-visible : (s : Str) → All IsVisible s → trim_space s ≡ s
unfolding trim_space space_2 space_3
trim_space-visible s v =
    ap (λ t. reverse (trim_by (λ a b. space_2 b a) (λ a b c. space_3 c b a) (reverse t)))
      (trim_by-visible space_2 space_3 s (λ a b h. ground (arith, h)) (λ a b c h. ground (arith, h))
        v)
    ∙ ap reverse (
        trim_by-visible (λ a b. space_2 b a) (λ a b c. space_3 c b a) (reverse s)
          (λ a b h. ground (arith, h)) (λ a b c h. ground (arith, h)) (All-reverse IsVisible s v))
    ∙ reverse-reverse s

drop_prefix-append : (p s : Str) → drop_prefix (p ++ s) p ≡ s
unfolding drop_prefix
drop_prefix-append [] s = refl
drop_prefix-append (c ∷ p) s = drop_prefix-append p s

has_prefix_self : (p s : Str) → has_prefix (p ++ s) p ≡ true
unfolding has_prefix
has_prefix_self [] s = refl
has_prefix_self (c ∷ p) s = ground (arith, has_prefix_self p s)

bearer_some : (token : Str) → bearer ++ token ≢ []
unfolding bearer codes
bearer_some token h = ground (arith, h)

-- The wrapper reads the token out of the header that the client writes.
pub bearer_token-visible :
    (token : Str) → token ≢ [] → All IsVisible token → bearer_token (bearer ++ token) ≡ ok token
unfolding bearer_token trim_prefix
bearer_token-visible token n v = ground (
  arith,
  n,
  bearer_some token,
  has_prefix_self bearer token,
  drop_prefix-append bearer token,
  trim_space-visible token v,
)
