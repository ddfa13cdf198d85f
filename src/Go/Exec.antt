-- ===== src/Go/Exec.antt =====
-- Go code that changes a state and may return an error: what was changed before the error stays.
use kruise_agents_nfs_csi.Prelude.{◌≡◌, refl, Option, none, some}
use kruise_agents_nfs_csi.Go.Errors.{Err, Result, ok, err, map_err}

abbrev pub Exec {ℓ κ} : Type ℓ → Type κ → Type (ℓ ⊔ κ)
Exec W A = W → Result A × W

module _ {ℓ κ} {W : Type ℓ} {A : Type κ} where
  abbrev pub pure : A → Exec W A
  pure a w = (ok a, w)

  abbrev pub raise : Err → Exec W A
  raise e w = (err e, w)

  abbrev pub lift : Result A → Exec W A
  lift r w = (r, w)

  -- The error as a value, for code that goes on after it.
  abbrev pub attempt : Exec W A → Exec W (Result A)
  attempt m w = let (r, w') = m w in (ok r, w')

  -- `if err != nil { return fmt.Errorf("...: %w", err) }`
  abbrev pub on_error : (Err → Err) → Exec W A → Exec W A
  on_error f m w = let (r, w') = m w in (map_err f r, w')

-- The error of a result, nil for a value.
abbrev pub error_of {ℓ} : {A : Type ℓ} → Result A → Option Err
error_of (ok a) = none
error_of (err e) = some e

module _ {ℓ κ μ} {W : Type ℓ} {A : Type κ} {B : Type μ} where
  abbrev pub continue : Result A → (A → Exec W B) → Exec W B
  continue (ok a) f w = f a w
  continue (err e) f w = (err e, w)

  infixl 5 ◌>>=◌ ◌>>◌
  abbrev pub ◌>>=◌ : Exec W A → (A → Exec W B) → Exec W B
  ◌>>=◌ m f w = let (r, w') = m w in continue r f w'

  abbrev pub ◌>>◌ : Exec W A → Exec W B → Exec W B
  m >> k = m >>= λ _. k

-- To use a run that has returned a value: for whatever its first part has returned.
pub run-elim {ℓ κ μ ν} :
    {W : Type ℓ} {A : Type κ} {B : Type μ} (Q : Result B × W → Type ν) (m : Exec W A)
    (f : A → Exec W B) (w : W) {b : B}
    → ((m >>= f) w).0 ≡ ok b
    → ((a : A) → (m w).0 ≡ ok a → (f a (m w).1).0 ≡ ok b → Q (f a (m w).1))
    → Q ((m >>= f) w)
run-elim {W} {A} {B} Q m f w {b} h use_parts = go (m w).0 refl h
  where
    go : (r : Result A) → (m w).0 ≡ r → (continue r f (m w).1).0 ≡ ok b → Q (continue r f (m w).1)
    go (ok a) e k = use_parts a e k
    go (err x) e k = cc
