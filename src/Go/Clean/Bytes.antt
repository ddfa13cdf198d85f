-- ===== src/Go/Clean/Bytes.antt =====
-- path.Clean brings in no bytes but dots and slashes, and keeps an absolute path absolute.
use kruise_agents_nfs_csi.Prelude.{
  ℕ, ◌≡◌, ◌≢◌, Bool, true, false, List, [], ◌∷◌, arith, All, All-reverse,
}
use kruise_agents_nfs_csi.Go.Text.{Str, str_eq, contains_byte, contains_byte-All, All-contains_byte}
use kruise_agents_nfs_csi.Go.Split.{split, split-All, join-All}
use kruise_agents_nfs_csi.Go.Clean.{
  slash, is_abs, back, enter, resolve, render, clean_parts, clean, is_abs-render,
}

module _ (P : ℕ → Type 0) (at_slash : P slash) (at_dot : P 46) where
  back-All :
      (rooted : Bool) (stack : List Str) → All (All P) stack → All (All P) (back rooted stack)
  unfolding back
  back-All true [] h = tt
  back-All true (part ∷ stack) h = h.1
  back-All false [] h = ((at_dot, (at_dot, tt)), tt)
  back-All false (part ∷ stack) h = ground (arith, at_dot)

  enter-All :
      (rooted : Bool) (stack : List Str) (part : Str)
      → All P part
      → All (All P) stack
      → All (All P) (enter rooted stack part)
  unfolding enter
  enter-All rooted stack part p h = ground (arith, back-All rooted stack h)

  resolve-All :
      (rooted : Bool) (stack parts : List Str)
      → All (All P) parts
      → All (All P) stack
      → All (All P) (resolve rooted stack parts)
  unfolding resolve
  resolve-All rooted stack [] p h = All-reverse (All P) stack h
  resolve-All rooted stack (part ∷ parts) p h =
      resolve-All rooted (enter rooted stack part) parts p.1 (enter-All rooted stack part p.0 h)

  render-All : (rooted : Bool) (parts : List Str) → All (All P) parts → All P (render rooted parts)
  unfolding render
  render-All true parts h = (at_slash, join-All P slash parts at_slash h)
  render-All false [] h = (at_dot, tt)
  render-All false (part ∷ parts) h = join-All P slash (part ∷ parts) at_slash h

  pub clean-All : (p : Str) → All P p → All P (clean p)
  unfolding clean clean_parts
  clean-All p h =
      render-All (is_abs p) _ (resolve-All (is_abs p) [] (split p slash) (split-All P p slash h) tt)

pub contains_byte-clean :
    (p : Str) (b : ℕ)
    → slash ≢ b
    → 46 ≢ b
    → contains_byte p b ≡ false
    → contains_byte (clean p) b ≡ false
contains_byte-clean p b n m h =
    All-contains_byte (clean p) b (clean-All (λ c. c ≢ b) n m p (contains_byte-All p b h))

pub is_abs-clean : (p : Str) → is_abs p ≡ true → is_abs (clean p) ≡ true
unfolding clean
is_abs-clean p h = rw h (is_abs-render (clean_parts p))
