-- ===== src/Go/Maps.antt =====
-- A Go map as an association list. The order of the entries stands for Go's iteration order, and
-- no theorem depends on it.
use kruise_agents_nfs_csi.Prelude.{
  ◌≡◌, refl, List, [], ◌∷◌, Option, none, some, arith, Eq, ◌==◌, if◌then◌else◌,
}

module _ {ℓ κ} {K : Type ℓ} {V : Type κ} ⦃e : Eq K⦄ where
  unfoldable pub lookup : K → List (K × V) → Option V
  lookup key [] = none
  lookup key ((other, value) ∷ rest) = if other == key then some value else lookup key rest

  -- m[k] = v
  unfoldable pub insert : K → V → List (K × V) → List (K × V)
  insert key value [] = (key, value) ∷ []
  insert key value ((other, old) ∷ rest) =
      let kept = insert key value rest in
      if other == key then (key, value) ∷ rest else (other, old) ∷ kept

  -- delete(m, k)
  unfoldable pub remove : K → List (K × V) → List (K × V)
  remove key [] = []
  remove key ((other, old) ∷ rest) =
      let kept = remove key rest in if other == key then kept else (other, old) ∷ kept

  -- Reading a key after an assignment.
  pub lookup-insert :
      (key asked : K) (value : V) (entries : List (K × V))
      → lookup asked (insert key value entries)
        ≡ (if key == asked then some value else lookup asked entries)
  unfolding lookup insert
  lookup-insert key asked value [] = refl
  lookup-insert key asked value ((other, old) ∷ rest) =
      ground (arith, lookup-insert key asked value rest)

  -- Reading a key after a deletion.
  pub lookup-remove :
      (key asked : K) (entries : List (K × V))
      → lookup asked (remove key entries) ≡ (if key == asked then none else lookup asked entries)
  unfolding lookup remove
  lookup-remove key asked [] = ground arith
  lookup-remove key asked ((other, old) ∷ rest) = ground (arith, lookup-remove key asked rest)
