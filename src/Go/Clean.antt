-- ===== src/Go/Clean.antt =====
-- path.Clean, path.IsAbs and path.Join: a path is cut at its slashes, and the parts are resolved
-- on a stack.
pub mod Bytes
pub mod Kept
use kruise_agents_nfs_csi.Prelude.{
  ℕ, ◌≡◌, ◌≢◌, refl, ap, Bool, true, false, not, ◌&&◌, ◌||◌, List, [], ◌∷◌, ◌++◌, arith, reverse,
  ℕ_discrete, ◌==◌, nat_eq, All, All-reverse, append_assoc, append-nil, if◌then◌else◌,
}
use mathlib.Core.List.{reverse-cons}
use kruise_agents_nfs_csi.Go.Text.{Str, str_dec, str_eq, has_prefix}
use kruise_agents_nfs_csi.Go.Split.{split, join, Free, split-Free, split-join}

abbrev pub slash : ℕ
slash = 47

abbrev pub dot : Str
dot = 46 ∷ []

abbrev pub dot_dot : Str
dot_dot = 46 ∷ 46 ∷ []

-- path.IsAbs
unfoldable pub is_abs : Str → Bool
unfolding has_prefix
is_abs p = has_prefix p (slash ∷ [])

-- ".." drops the last part; it stays in front of a relative path, and goes at the root.
unfoldable pub back : Bool → List Str → List Str
back true [] = []
back true (part ∷ stack) = stack
back false [] = dot_dot ∷ []
back false (part ∷ stack) = if part == dot_dot then dot_dot ∷ part ∷ stack else stack

unfoldable pub enter : Bool → List Str → Str → List Str
unfolding back
enter rooted stack part =
    if part == [] || part == dot
    then stack
    else if part == dot_dot
    then back rooted stack
    else part ∷ stack

unfoldable pub resolve : Bool → List Str → List Str → List Str
resolve rooted stack [] = reverse stack
resolve rooted stack (part ∷ parts) = resolve rooted (enter rooted stack part) parts

unfoldable pub render : Bool → List Str → Str
render true parts = slash ∷ join parts slash
render false [] = dot
render false (part ∷ parts) = join (part ∷ parts) slash

-- The parts of a cleaned path.
unfoldable pub clean_parts : Str → List Str
clean_parts p = resolve (is_abs p) [] (split p slash)

-- path.Clean
unfoldable pub clean : Str → Str
clean p = render (is_abs p) (clean_parts p)

-- A part that names a directory entry.
pub record Proper (part : Str) : Type 0 where
  pub free : Free slash part
  pub ne_nil : part ≢ []
  pub ne_dot : part ≢ dot
  pub ne_dot_dot : part ≢ dot_dot

back-Proper : (stack : List Str) → All Proper stack → All Proper (back true stack)
unfolding back
back-Proper [] h = tt
back-Proper (part ∷ stack) h = h.1

pub Proper-of :
    (part : Str) → Free slash part → part ≢ [] → part ≢ dot → part ≢ dot_dot → Proper part
Proper-of part f a b c = record { free = f; ne_nil = a; ne_dot = b; ne_dot_dot = c }

enter-Proper :
    (stack : List Str) (part : Str)
    → Free slash part
    → All Proper stack
    → All Proper (enter true stack part)
unfolding enter
enter-Proper stack part f h = ground (arith, back-Proper stack h, Proper-of part f)

resolve-Proper :
    (stack parts : List Str)
    → All (Free slash) parts
    → All Proper stack
    → All Proper (resolve true stack parts)
unfolding resolve
resolve-Proper stack [] f h = All-reverse Proper stack h
resolve-Proper stack (part ∷ parts) f h =
    resolve-Proper (enter true stack part) parts f.1 (enter-Proper stack part f.0 h)

-- The parts of a cleaned absolute path name directory entries.
pub clean_parts-Proper : (p : Str) → is_abs p ≡ true → All Proper (clean_parts p)
unfolding clean_parts
clean_parts-Proper p h = rw h (resolve-Proper [] (split p slash) (split-Free p slash) tt)

enter-Proper_self :
    (rooted : Bool) (stack : List Str) (part : Str)
    → Proper part
    → enter rooted stack part ≡ part ∷ stack
unfolding enter
enter-Proper_self rooted stack part p = ground arith

resolve-Proper_self :
    (rooted : Bool) (stack parts : List Str)
    → All Proper parts
    → resolve rooted stack parts ≡ reverse stack ++ parts
unfolding resolve
resolve-Proper_self rooted stack [] h = rw append-nil
resolve-Proper_self rooted stack (part ∷ parts) h = rw (
  enter-Proper_self rooted stack part h.0,
  resolve-Proper_self rooted (part ∷ stack) parts h.1,
  reverse-cons part stack,
  append_assoc,
)

pub All-Free : (parts : List Str) → All Proper parts → All (Free slash) parts
All-Free [] h = tt
All-Free (part ∷ parts) h = (h.0.free, All-Free parts h.1)

-- An absolute path that is rendered from proper parts cleans to those parts.
pub clean_parts-render :
    (parts : List Str) → All Proper parts → clean_parts (render true parts) ≡ parts
unfolding clean_parts render is_abs has_prefix join split resolve enter ℕ_discrete str_dec
clean_parts-render [] h = refl
clean_parts-render (part ∷ parts) h =
    rw (split-join part parts slash (All-Free (part ∷ parts) h))
      (resolve-Proper_self true [] (part ∷ parts) h)

pub is_abs-render : (parts : List Str) → is_abs (render true parts) ≡ true
unfolding is_abs render has_prefix
is_abs-render parts = ground arith

-- Cleaning an absolute path twice is cleaning it once.
pub clean_idem : (p : Str) → is_abs p ≡ true → clean (clean p) ≡ clean p
unfolding clean
clean_idem p h =
    rw (h, is_abs-render (clean_parts p))
      (ap (render true) (clean_parts-render (clean_parts p) (clean_parts-Proper p h)))

-- A test for proper parts, to check names that are written out.
is_free : Str → Bool
is_free [] = true
is_free (c ∷ s) = not (c == slash) && is_free s

is_free-Free : (s : Str) → is_free s ≡ true → Free slash s
unfolding is_free
is_free-Free [] h = tt
is_free-Free (c ∷ s) h = ground (arith, is_free-Free s)

unfoldable pub is_proper : Str → Bool
unfolding is_free
is_proper part = is_free part && not (part == []) && not (part == dot) && not (part == dot_dot)

pub is_proper-Proper : (part : Str) → is_proper part ≡ true → Proper part
unfolding is_proper
is_proper-Proper part h = ground (arith, is_free-Free part)

unfoldable pub all_proper : List Str → Bool
unfolding is_proper
all_proper [] = true
all_proper (part ∷ parts) = is_proper part && all_proper parts

pub all_proper-Proper : (parts : List Str) → all_proper parts ≡ true → All Proper parts
unfolding all_proper
all_proper-Proper [] h = tt
all_proper-Proper (part ∷ parts) h = ground (arith, is_proper-Proper part, all_proper-Proper parts)
