-- ===== src/Security/SubPath/Checked.antt =====
-- What ValidateSourceSubPath of internal/security/subpath.go accepts.
use kruise_agents_nfs_csi.Prelude.{
  ◌≡◌, ◌≢◌, refl, ap, false, List, [], ◌∷◌, arith, ℕ_discrete, ◌==◌, All, ◌↔◌, sym, if◌then◌else◌,
}
use kruise_agents_nfs_csi.Go.Text.{
  Str, str_eq, str_dec, contains_byte, has_prefix, contains_byte-All, All-contains_byte,
}
use kruise_agents_nfs_csi.Go.Split.{split, join, split-join, split-All, join-All}
use kruise_agents_nfs_csi.Go.Clean.{
  slash, dot, is_abs, render, clean_parts, clean, Proper, All-Free,
}
use kruise_agents_nfs_csi.Go.Clean.Kept.{
  has_dot_dot, keep, kept, keep-All, resolve-keep, kept-Proper, kept-join, has_dot_dot-join,
}
use kruise_agents_nfs_csi.Go.Errors.{ok}
use kruise_agents_nfs_csi.Security.SubPath.{validate_source_sub_path}

pub record IsSubPath (p : Str) : Type 0 where
  pub nul_free : contains_byte p 0 ≡ false
  pub relative : is_abs p ≡ false
  pub confined : has_dot_dot (split p slash) ≡ false

-- Cleaning a relative path without ".." joins the parts that are kept.
clean-kept :
    (p : Str)
    → is_abs p ≡ false
    → has_dot_dot (split p slash) ≡ false
    → clean p ≡ render false (kept p)
unfolding clean clean_parts
clean-kept p a h = rw a (ap (render false) (resolve-keep false [] (split p slash) h))

-- A joined path starts with no slash, and is not ".".
join-relative : (parts : List Str) → All Proper parts → is_abs (join parts slash) ≡ false
unfolding is_abs has_prefix join
join-relative [] h = refl
join-relative ([] ∷ parts) h = absurd (h.0.ne_nil refl)
join-relative ((c ∷ part) ∷ []) h = ground (arith, h.0.free.0)
join-relative ((c ∷ part) ∷ next ∷ parts) h = ground (arith, h.0.free.0)

join-ne-dot :
    (part : Str) (parts : List Str) → All Proper (part ∷ parts) → join (part ∷ parts) slash ≢ dot
unfolding split ℕ_discrete
join-ne-dot part parts h e = h.0.ne_dot (
    ground (
      arith,
      split-join part parts slash (All-Free (part ∷ parts) h),
      ap (λ (s : Str). split s slash) e,
    ))

-- The last test of the code maps "." to the empty path.
render-join :
    (parts : List Str)
    → All Proper parts
    → (if render false parts == dot then [] else render false parts) ≡ join parts slash
unfolding render
render-join [] h = unfold join in ground arith
render-join (part ∷ parts) h = ground (arith, join-ne-dot part parts h)

-- A path that passes the three tests is accepted as its kept parts, joined.
validate_source_sub_path-eq :
    (p : Str) → IsSubPath p → validate_source_sub_path p ≡ ok (join (kept p) slash)
unfolding validate_source_sub_path
validate_source_sub_path-eq [] h = unfold keep split join str_dec ℕ_discrete in refl
validate_source_sub_path-eq (c ∷ p) h = ground (
  arith,
  h,
  clean-kept (c ∷ p) h.relative h.confined,
  render-join (kept (c ∷ p)) (kept-Proper (c ∷ p) h.confined),
)

validate_source_sub_path-IsSubPath : (p c : Str) → validate_source_sub_path p ≡ ok c → IsSubPath p
unfolding validate_source_sub_path
validate_source_sub_path-IsSubPath [] c h =
    unfold is_abs has_prefix contains_byte has_dot_dot split str_dec ℕ_discrete in
    record { nul_free = refl; relative = refl; confined = refl }
validate_source_sub_path-IsSubPath (a ∷ p) c h = ground arith

-- The check accepts exactly the relative paths without NUL bytes and ".." segments, and the result
-- is the other segments in order, with the empty and "." segments left out.
pub validate_source_sub_path_iff :
    (p c : Str) → (validate_source_sub_path p ≡ ok c) ↔ (IsSubPath p × (c ≡ join (kept p) slash))
validate_source_sub_path_iff p c = (
  (λ h.
      let s = validate_source_sub_path-IsSubPath p c h in
      (s, cc (validate_source_sub_path-eq p s))),
  (λ h. cc (validate_source_sub_path-eq p h.0)),
)

contains_byte-kept :
    (p : Str) → contains_byte p 0 ≡ false → contains_byte (join (kept p) slash) 0 ≡ false
contains_byte-kept p h = All-contains_byte (join (kept p) slash) 0 (
    join-All (λ c. c ≢ 0) slash (kept p) (omega arith)
      (keep-All (λ c. c ≢ 0) (split p slash)
        (split-All (λ c. c ≢ 0) p slash (contains_byte-All p 0 h))))

pub join-IsSubPath : (p : Str) → IsSubPath p → IsSubPath (join (kept p) slash)
join-IsSubPath p h =
    let k = kept-Proper p h.confined in
    record {
      nul_free = contains_byte-kept p h.nul_free;
      relative = join-relative (kept p) k;
      confined = has_dot_dot-join (kept p) k;
    }

-- Checking an accepted path again accepts it, unchanged.
pub validate_source_sub_path_idem :
    (p c : Str) → validate_source_sub_path p ≡ ok c → validate_source_sub_path c ≡ ok c
validate_source_sub_path_idem p c h =
    let (s, e) = (validate_source_sub_path_iff p c).0 h in
    (validate_source_sub_path_iff c c).1 (
      rw e (
        join-IsSubPath p s,
        ap (λ k. join k slash) (sym (kept-join (kept p) (kept-Proper p s.confined))),
      ))
