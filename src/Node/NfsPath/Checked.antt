-- ===== src/Node/NfsPath/Checked.antt =====
-- What NormalizeNFSSubDir of internal/node/nfspath.go accepts, and when it yields the share root.
use kruise_agents_nfs_csi.Prelude.{
  ◌≡◌, ◌↔◌, ap, true, false, [], ◌∷◌, arith, ℕ_discrete, nat_eq, ◌==◌, ◌∙◌, if◌then◌else◌,
}
use kruise_agents_nfs_csi.Go.Text.{
  Str, str_eq, str_dec, contains_byte, has_prefix, trim_left, trim_prefix, trim_space,
}
use kruise_agents_nfs_csi.Go.Split.{split, join}
use kruise_agents_nfs_csi.Go.Clean.{slash, is_abs, resolve, enter, render, clean_parts, clean}
use kruise_agents_nfs_csi.Go.Clean.Kept.{
  has_dot_dot, kept, resolve-keep, kept-trim_left, has_dot_dot-trim_left,
}
use kruise_agents_nfs_csi.Go.Errors.{ok}
use kruise_agents_nfs_csi.Node.NfsPath.{normalize_trimmed, normalize_nfs_sub_dir}

clean_rooted :
    (v : Str)
    → has_dot_dot (split v slash) ≡ false
    → clean (slash ∷ trim_left v slash) ≡ slash ∷ join (kept v) slash
unfolding clean clean_parts is_abs has_prefix render split resolve enter ℕ_discrete str_dec
clean_rooted v h =
    ap (λ parts. slash ∷ join parts slash)
      (resolve-keep true [] (split (trim_left v slash) slash) (has_dot_dot-trim_left v ∙ h)
        ∙ kept-trim_left v)

-- "/" stands for the root, and of any other path the leading slash goes.
drop_slash :
    (s : Str) → (if slash ∷ s == slash ∷ [] then [] else trim_prefix (slash ∷ s) (slash ∷ [])) ≡ s
unfolding trim_prefix
drop_slash s = ground arith

normalize_trimmed-eq :
    (v : Str)
    → contains_byte v 0 ≡ false
    → has_dot_dot (split v slash) ≡ false
    → normalize_trimmed v ≡ ok (join (kept v) slash)
unfolding normalize_trimmed
normalize_trimmed-eq v z h = rw (z, h, clean_rooted v h) (ap ok (drop_slash (join (kept v) slash)))

normalize_trimmed-inv :
    (v c : Str)
    → normalize_trimmed v ≡ ok c
    → (contains_byte v 0 ≡ false) × (has_dot_dot (split v slash) ≡ false)
unfolding normalize_trimmed
normalize_trimmed-inv v c h = ground arith

-- NormalizeNFSSubDir accepts exactly the values that, trimmed of white space, have no NUL byte and
-- no ".." segment, and yields the other segments in order, with the empty and "." ones left out.
pub normalize_nfs_sub_dir_iff :
    (value c : Str)
    → (normalize_nfs_sub_dir value ≡ ok c) ↔ (
        (contains_byte (trim_space value) 0 ≡ false)
        × (has_dot_dot (split (trim_space value) slash) ≡ false)
        × (c ≡ join (kept (trim_space value)) slash))
unfolding normalize_nfs_sub_dir
normalize_nfs_sub_dir_iff value c = (
  (λ h.
      let (z, d) = normalize_trimmed-inv (trim_space value) c h in
      (z, d, cc (normalize_trimmed-eq (trim_space value) z d))),
  (λ (z, d, e). cc (normalize_trimmed-eq (trim_space value) z d)),
)
