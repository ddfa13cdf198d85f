-- ===== src/Client/Publish/Names.antt =====
-- cmd/mounter/main.go: the volume's name in a volume id.
use kruise_agents_nfs_csi.Prelude.{
  ℕ, ◌≡◌, ◌≢◌, refl, true, false, ◌&&◌, ◌||◌, [], ◌∷◌, ◌++◌, none, some, arith, any, length, ltb,
  nat_eq, All,
}
use kruise_agents_nfs_csi.Go.Text.{Str, str_eq}
use kruise_agents_nfs_csi.Go.Search.{cut_last}
use kruise_agents_nfs_csi.Go.Errors.{ok}
use kruise_agents_nfs_csi.Client.Publish.{
  is_lower_alpha_numeric, without_suffix, derive_pv_name_from_volume_id,
}

-- A text without the byte is not cut.
cut_last-none : (s : Str) (b : ℕ) → All (λ c. c ≢ b) s → cut_last s b ≡ none
unfolding cut_last
cut_last-none [] b h = refl
cut_last-none (c ∷ s) b h = ground (arith, cut_last-none s b h.1)

cut_last-append :
    (name suffix : Str) (b : ℕ)
    → All (λ c. c ≢ b) suffix
    → cut_last (name ++ (b ∷ suffix)) b ≡ some (name, suffix)
unfolding cut_last
cut_last-append [] suffix b h = ground (arith, cut_last-none suffix b h)
cut_last-append (c ∷ name) suffix b h = ground (arith, cut_last-append name suffix b h)

lower-Free :
    (s : Str)
    → any (λ c. (ltb c 97 || ltb 122 c) && (ltb c 48 || ltb 57 c)) s ≡ false
    → All (λ c. c ≢ 45) s
unfolding any
lower-Free [] h = tt
lower-Free (c ∷ s) h = ground (arith, lower-Free s)

-- A volume id that is a name, a dash and six lower-case letters or digits stands for the name, which
-- may have dashes and is not empty.
pub derive_pv_name_from_volume_id-append :
    (name suffix : Str)
    → name ≢ []
    → length suffix ≡ 6
    → is_lower_alpha_numeric suffix ≡ true
    → derive_pv_name_from_volume_id (name ++ (45 ∷ suffix)) ≡ ok name
unfolding derive_pv_name_from_volume_id without_suffix is_lower_alpha_numeric
derive_pv_name_from_volume_id-append name suffix n six lower =
    ground (arith, n, six, lower, lower-Free suffix, cut_last-append name suffix 45)
