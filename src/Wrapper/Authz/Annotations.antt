-- ===== src/Wrapper/Authz/Annotations.antt =====
-- internal/wrapper/authz.go: the allowlists that a volume's annotations state.
use kruise_agents_nfs_csi.Prelude.{
  ◌≡◌, ◌≢◌, ◌↔◌, refl, Bool, true, false, ◌||◌, List, [], ◌∷◌, Option, none, some, arith, ◌==◌,
  nat_eq, All, any,
}
use kruise_agents_nfs_csi.Go.Text.{Str, str_eq, trim_space}
use kruise_agents_nfs_csi.Go.Split.{split}
use kruise_agents_nfs_csi.Go.Maps.{lookup}
use kruise_agents_nfs_csi.Go.Errors.{ok}
use kruise_agents_nfs_csi.Kube.{Pod, PersistentVolume, CsiPersistentVolumeSource}
use kruise_agents_nfs_csi.Wrapper.Authz.{
  scan_entries, star, authorize_pv_annotation, authorize_pv_for_pod, allow_namespace_annotation,
  allow_service_account_annotation,
}

-- An entry that names one identity: not empty, and no wildcard.
abbrev pub IsEntry : Str → Type 0
IsEntry raw = (trim_space raw ≢ []) × (trim_space raw ≢ star)

abbrev pub lists : Str → List Str → Bool
lists identity raws = any (λ raw. trim_space raw == identity) raws

scan_entries-inv :
    (identity : Str) (allowed : Bool) (raws : List Str) (b : Bool)
    → scan_entries identity allowed raws ≡ ok b
    → All IsEntry raws × (b ≡ (allowed || lists identity raws))
unfolding scan_entries any
scan_entries-inv identity allowed [] b h = (tt, ground arith)
scan_entries-inv identity allowed (raw ∷ raws) b h =
    ground (arith, scan_entries-inv identity (allowed || trim_space raw == identity) raws b)

scan_entries-entries :
    (identity : Str) (allowed : Bool) (raws : List Str)
    → All IsEntry raws
    → scan_entries identity allowed raws ≡ ok (allowed || lists identity raws)
unfolding scan_entries any
scan_entries-entries identity allowed [] h = ground arith
scan_entries-entries identity allowed (raw ∷ raws) h =
    ground (arith, scan_entries-entries identity (allowed || trim_space raw == identity) raws h.1)

-- What an annotation asks of an identity: nothing if it is absent; otherwise its text is a
-- comma-separated list of entries, white space around them aside, and one of them is the identity.
abbrev pub Allows : Option Str → Str → Type 0
Allows none identity = Unit {0}
Allows (some raw) identity =
    (raw ≢ []) × All IsEntry (split raw 44) × (lists identity (split raw 44) ≡ true)

authorize-Allows :
    (pv : PersistentVolume) (k identity : Str) (o : Option Str)
    → lookup k pv.metadata.annotations ≡ o
    → (authorize_pv_annotation pv k identity ≡ ok tt) ↔ Allows o identity
unfolding authorize_pv_annotation
authorize-Allows pv k identity none e = (λ h. tt, λ h. ground arith)
authorize-Allows pv k identity (some raw) e = (
  (λ h. ground (arith, scan_entries-inv identity false (split raw 44) true)),
  (λ h. ground (arith, scan_entries-entries identity false (split raw 44))),
)

-- A volume's annotation lets an identity pass exactly if the annotation is absent, or is a list of
-- entries without empty ones and wildcards that names the identity.
pub authorize_pv_annotation_iff :
    (pv : PersistentVolume) (k identity : Str)
    → (authorize_pv_annotation pv k identity ≡ ok tt)
      ↔ Allows (lookup k pv.metadata.annotations) identity
authorize_pv_annotation_iff pv k identity =
    authorize-Allows pv k identity (lookup k pv.metadata.annotations) refl

-- What a volume grants to a pod.
pub record Grants (driver : Str) (pod : Pod) (pv : PersistentVolume)
    (csi : CsiPersistentVolumeSource) : Type 0 where
  pub source : pv.spec.csi ≡ some csi
  pub driver_name : csi.driver ≡ driver
  pub namespace :
      Allows (lookup allow_namespace_annotation pv.metadata.annotations) pod.metadata.namespace
  pub account :
      Allows
        (lookup allow_service_account_annotation pv.metadata.annotations)
        pod.spec.service_account_name

pub authorize_pv_for_pod-Grants :
    (driver : Str) (pod : Pod) (pv : PersistentVolume) (csi : CsiPersistentVolumeSource)
    → authorize_pv_for_pod driver pod pv ≡ ok csi
    → Grants driver pod pv csi
unfolding authorize_pv_for_pod
authorize_pv_for_pod-Grants driver pod pv csi h = ground (
  arith,
  (authorize_pv_annotation_iff pv allow_namespace_annotation pod.metadata.namespace).0,
  (authorize_pv_annotation_iff pv allow_service_account_annotation pod.spec.service_account_name).0,
)
