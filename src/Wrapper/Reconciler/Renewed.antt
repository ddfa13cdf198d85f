-- ===== src/Wrapper/Reconciler/Renewed.antt =====
-- internal/wrapper/reconciler.go and root_auth.go: how long an authorization of the export root lasts.
use kruise_agents_nfs_csi.Prelude.{
  ◌≡◌, ◌≢◌, ◌↔◌, ◌⊎◌, true, false, ◌&&◌, [], arith, bool_eq, if◌then◌else◌,
}
use kruise_agents_nfs_csi.Go.Text.{Str, str_eq}
use kruise_agents_nfs_csi.Go.Errors.{ok}
use kruise_agents_nfs_csi.Node.{MountPlan}
use kruise_agents_nfs_csi.Node.NfsPath.{is_nfs_export_root}
use kruise_agents_nfs_csi.Wrapper.Desired.{DesiredMount}
use kruise_agents_nfs_csi.Wrapper.RootAuth.{ExportRootAuthorizer, authorizes_fingerprint}
use kruise_agents_nfs_csi.Wrapper.Reconciler.{reauthorize}

-- The intent's decision on the export root still stands: it is the one for the present plan, or it
-- comes from a legacy file, and the present plan is one that needs no key.
abbrev pub Stands : ExportRootAuthorizer → DesiredMount → MountPlan → Type 0
Stands root current plan =
    ((current.legacy_root_classification_unknown ≡ false)
      × (current.export_root_authorized ≡ is_nfs_export_root plan))
    ⊎ ((current.legacy_root_classification_unknown ≡ true)
        × ((is_nfs_export_root plan ≡ false) ⊎ (root.configured ≡ false)))

-- The plan needs no key, or the fingerprint is that of the present key.
abbrev pub Granted : ExportRootAuthorizer → Str → MountPlan → Type 0
Granted root fingerprint plan =
    (is_nfs_export_root plan ≡ false)
    ⊎ (root.configured ≡ false)
    ⊎ ((fingerprint ≢ []) × (fingerprint ≡ root.fingerprint))

-- The intent with the present decision; a fingerprint is kept only where a key is asked for.
abbrev pub renewed : ExportRootAuthorizer → DesiredMount → MountPlan → DesiredMount
renewed root current plan = record current {
  export_root_authorized = is_nfs_export_root plan;
  export_root_key_fingerprint =
      if is_nfs_export_root plan && root.configured
      then current.export_root_key_fingerprint
      else [];
  legacy_root_classification_unknown = false;
}

-- The reconciler renews an intent's authorization exactly if the decision on the export root that is
-- stored still stands for the present plan and, where that plan mounts the export root and a key is
-- configured, the stored fingerprint is that of the key; and then the intent differs only by the
-- present decision, and by a fingerprint that is no longer needed.
pub reauthorize_iff :
    (root : ExportRootAuthorizer) (current refreshed : DesiredMount) (plan : MountPlan)
    → (reauthorize root current plan ≡ ok refreshed) ↔ (
        (Stands root current plan)
        × (Granted root current.export_root_key_fingerprint plan)
        × (refreshed ≡ renewed root current plan))
unfolding reauthorize authorizes_fingerprint
reauthorize_iff root current refreshed plan =
    (λ h. ground (arith, h), λ (stands, granted, same). ground (arith, stands, granted, same))
