-- ===== src/Wrapper/Reconciler/Results.antt =====
-- internal/wrapper/reconciler.go: what the result of a reconciliation does to the store.
use kruise_agents_nfs_csi.Prelude.{◌≡◌, ◌⊎◌, inl, refl, true, none, some, arith}
use kruise_agents_nfs_csi.Go.Errors.{Result, ok, err, is, desired_mount_stale}
use kruise_agents_nfs_csi.Wrapper.Desired.{DesiredMount, MountKey, IsStore, key, key_eq, desired_eq}
use kruise_agents_nfs_csi.Wrapper.Server.Base.{Server, World, get}
use kruise_agents_nfs_csi.Wrapper.Reconciler.{handle_reconcile_result}

-- The error says that the intent is stale.
abbrev pub SaysStale : Result (Unit {0}) → Type 0
SaysStale (ok _) = ⊥
SaysStale (err e) = is desired_mount_stale e ≡ true

module _ {S N : Type 0} (s : Server S N) (laws : IsStore s.state) where
  -- An error changes what the store holds for a key only if it says that the intent is stale, the
  -- key is that of the intent, and the store still holds the very intent the reconciliation has
  -- read; then the store holds nothing for the key. The node is never touched.
  pub handle_reconcile_result-get :
      (desired : DesiredMount) (r : Result (Unit {0})) (w : World S N) (k : MountKey)
      → ((handle_reconcile_result s desired r w).node ≡ w.node)
        × ((get s k (handle_reconcile_result s desired r w) ≡ get s k w)
            ⊎ ((SaysStale r)
                × (key desired ≡ k)
                × (get s k w ≡ some desired)
                × (get s k (handle_reconcile_result s desired r w) ≡ none)))
  unfolding handle_reconcile_result
  handle_reconcile_result-get desired (ok _) w k = (refl, inl refl)
  handle_reconcile_result-get desired (err e) w k =
      ground (arith, laws.get-delete (key desired) w.store k)
