-- ===== src/Go/Errors/Inversion.antt =====
-- What a successful chain of calls says of its parts.
use kruise_agents_nfs_csi.Prelude.{◌≡◌, refl}
use kruise_agents_nfs_csi.Go.Errors.{Err, Result, ok, err, map_err, ◌>>=◌}

-- To use a successful bind: for whatever the first call has returned.
pub bind-elim {ℓ κ μ} :
    {A : Type ℓ} {B : Type κ} {P : Type μ} (m : Result A) (f : A → Result B) {b : B}
    → (m >>= f) ≡ ok b
    → ((a : A) → m ≡ ok a → f a ≡ ok b → P)
    → P
bind-elim (ok a) f h use_parts = use_parts a refl h
bind-elim (err e) f h use_parts = cc

pub map_err-eq-ok {ℓ} :
    {A : Type ℓ} (f : Err → Err) (m : Result A) {a : A} → map_err f m ≡ ok a → m ≡ ok a
map_err-eq-ok f (ok a) h = h
map_err-eq-ok f (err e) h = cc
