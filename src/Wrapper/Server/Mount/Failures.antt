-- ===== src/Wrapper/Server/Mount/Failures.antt =====
-- internal/wrapper/server.go: a mount that the node refuses leaves the intents as they were.
use kruise_agents_nfs_csi.Prelude.{◌≡◌, refl, true, Option, none, some, arith}
use kruise_agents_nfs_csi.Go.Errors.{
  Err, Result, ok, err, is, node_operation, sentinel_dec, join_opt,
}
use kruise_agents_nfs_csi.Node.{MountPlan}
use kruise_agents_nfs_csi.Wrapper.Desired.{DesiredMount, MountKey, IsStore, key, key_eq}
use kruise_agents_nfs_csi.Wrapper.Server.Base.{Server, World, get}
use kruise_agents_nfs_csi.Wrapper.Server.Mount.{
  restore_desired_mount, roll_back, finish_mount, apply_mount,
}

-- The error of an operation of the node.
abbrev pub FailsOnNode {ℓ} : {A : Type ℓ} → Result A → Type 0
FailsOnNode (ok a) = ⊥
FailsOnNode (err e) = is node_operation e ≡ true

module _ {S N : Type 0} (s : Server S N) (laws : IsStore s.state) where
  -- The state in which the node has failed, with the intent already written.
  abbrev pub pending : DesiredMount → MountPlan → World S N → World S N
  pending desired plan w = record {
    store = (s.state.put desired w.store).1;
    node = (s.mounter.mount plan w.node).1;
  }

  refused-answer :
      (desired : DesiredMount) (plan : MountPlan) (previous : Option DesiredMount) (w : World S N)
      (e : Err)
      → (s.state.put desired w.store).0 ≡ ok tt
      → (s.mounter.mount plan w.node).0 ≡ err e
      → FailsOnNode (apply_mount s desired plan previous w).0
  unfolding apply_mount finish_mount roll_back restore_desired_mount join_opt is sentinel_dec
  refused-answer desired plan none w e p m = ground arith
  refused-answer desired plan (some previous) w e p m = ground arith

  refused-get :
      (desired : DesiredMount) (plan : MountPlan) (previous : Option DesiredMount) (w : World S N)
      (e : Err) (k : MountKey)
      → get s (key desired) w ≡ previous
      → (s.state.put desired w.store).0 ≡ ok tt
      → (s.mounter.mount plan w.node).0 ≡ err e
      → (restore_desired_mount s (key desired) previous (pending desired plan w)).0 ≡ ok tt
      → get s k (apply_mount s desired plan previous w).1 ≡ get s k w
  unfolding apply_mount finish_mount roll_back restore_desired_mount
  refused-get desired plan none w e k g p m r = ground (
    arith,
    laws.get-put desired w.store k,
    laws.get-delete (key desired) (s.state.put desired w.store).1 k,
  )
  refused-get desired plan (some previous) w e k g p m r = ground (
    arith,
    laws.key-get (key desired) w.store previous g,
    laws.get-put desired w.store k,
    laws.get-put previous (s.state.put desired w.store).1 k,
  )

  -- When the store takes the intent, the node refuses the mount and the store takes the undoing
  -- write, the answer is a node error and each key then reads as it did before the request, the
  -- intent's own key included.
  pub apply_mount_refused :
      (desired : DesiredMount) (plan : MountPlan) (w : World S N) (e : Err)
      → (s.state.put desired w.store).0 ≡ ok tt
      → (s.mounter.mount plan w.node).0 ≡ err e
      → (restore_desired_mount s (key desired) (get s (key desired) w) (pending desired plan w)).0
        ≡ ok tt
      → FailsOnNode (apply_mount s desired plan (get s (key desired) w) w).0
        × ((k : MountKey)
            → get s k (apply_mount s desired plan (get s (key desired) w) w).1 ≡ get s k w)
  apply_mount_refused desired plan w e p m r = (
    refused-answer desired plan (get s (key desired) w) w e p m,
    (λ k. refused-get desired plan (get s (key desired) w) w e k refl p m r),
  )
