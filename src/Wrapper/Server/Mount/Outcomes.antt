-- ===== src/Wrapper/Server/Mount/Outcomes.antt =====
-- internal/wrapper/server.go: what mount leaves in the store, whether it succeeds or fails.
use kruise_agents_nfs_csi.Prelude.{
  ◌≡◌, ◌⊎◌, inl, inr, refl, ap, Bool, true, false, [], Option, none, some, arith, bool_eq,
}
use kruise_agents_nfs_csi.Go.Text.{str_eq}
use kruise_agents_nfs_csi.Go.Errors.{ok}
use kruise_agents_nfs_csi.Go.Exec.{◌>>=◌, run-elim}
use kruise_agents_nfs_csi.Api.{MountResult, request_eq}
use kruise_agents_nfs_csi.Node.{MountPlan}
use kruise_agents_nfs_csi.Wrapper.Desired.{
  DesiredMount, MountKey, IsStore, key, key_eq, mount_key_for, same_mount_intent,
}
use kruise_agents_nfs_csi.Wrapper.Server.Base.{Server, World, get}
use kruise_agents_nfs_csi.Wrapper.Server.Mount.{
  roll_back, admit_previous, already_mounted, confirm_mounted, finish_mount, apply_mount,
  complete_mount, mount_locked,
}

module _ {S N : Type 0} (s : Server S N) (laws : IsStore s.state) where
  -- The intent is in the store, for the plan's container or for no container yet.
  abbrev pub Recorded : DesiredMount → MountPlan → Option DesiredMount → Type 0
  Recorded desired plan none = ⊥
  Recorded desired plan (some mount) =
      (mount.request ≡ desired.request)
      × (mount.export_root_authorized ≡ desired.export_root_authorized)
      × (mount.export_root_key_fingerprint ≡ desired.export_root_key_fingerprint)
      × ((mount.container_id ≡ []) ⊎ (mount.container_id ≡ plan.container_id))

  apply_mount-Recorded :
      (desired : DesiredMount) (plan : MountPlan) (previous : Option DesiredMount) (w : World S N)
      (r : MountResult)
      → desired.container_id ≡ []
      → (apply_mount s desired plan previous w).0 ≡ ok r
      → Recorded desired plan (get s (key desired) (apply_mount s desired plan previous w).1)
  unfolding apply_mount finish_mount roll_back
  apply_mount-Recorded desired plan previous w r e h = ground (
    arith,
    laws.get-put desired w.store (key desired),
    laws.get-put (record desired { container_id = plan.container_id })
        (s.state.put desired w.store).1 (key desired),
  )

  confirm_mounted-store :
      (previous : DesiredMount) (plan : MountPlan) (mounted : Bool) (w : World S N) (k : MountKey)
      → key previous ≡ k
      → get s k w ≡ some previous
      → (confirm_mounted s previous plan mounted w).0 ≡ ok true
      → (get s k (confirm_mounted s previous plan mounted w).1 ≡ some previous)
        ⊎ (get s k (confirm_mounted s previous plan mounted w).1
            ≡ some (record previous { container_id = plan.container_id }))
  unfolding confirm_mounted
  confirm_mounted-store previous plan false w k e g h = cc
  confirm_mounted-store previous plan true w k e g h =
      ground (arith, laws.get-put (record previous { container_id = plan.container_id }) w.store k)

  same_mount_intent-eq :
      (previous desired : DesiredMount)
      → same_mount_intent previous desired ≡ true
      → (previous.request ≡ desired.request)
        × (previous.export_root_authorized ≡ desired.export_root_authorized)
        × (previous.export_root_key_fingerprint ≡ desired.export_root_key_fingerprint)
  unfolding same_mount_intent
  same_mount_intent-eq previous desired h = ground arith

  -- Where the target is found mounted, the code has made its tests.
  already_mounted-tests :
      (desired previous : DesiredMount) (plan : MountPlan) (w : World S N)
      → (already_mounted s desired plan (some previous) w).0 ≡ ok true
      → (same_mount_intent previous desired ≡ true)
        × ((previous.container_id ≡ []) ⊎ (previous.container_id ≡ plan.container_id))
        × (already_mounted s desired plan (some previous) w
            ≡ confirm_mounted s previous plan true w)
  unfolding already_mounted confirm_mounted
  already_mounted-tests desired previous plan w h = (ground arith, ground arith, ground arith)

  -- Where the target is found mounted, the intent that is in the store is the one desired.
  already_mounted-Recorded :
      (desired : DesiredMount) (plan : MountPlan) (previous : Option DesiredMount) (w : World S N)
      → get s (key desired) w ≡ previous
      → (already_mounted s desired plan previous w).0 ≡ ok true
      → Recorded desired plan (get s (key desired) (already_mounted s desired plan previous w).1)
  already_mounted-Recorded desired plan none w g h = unfold already_mounted in cc h
  already_mounted-Recorded desired plan (some previous) w g h =
      let (i, c, e) = already_mounted-tests desired previous plan w h in
      let (q, a, f) = same_mount_intent-eq previous desired i in
      elim (confirm_mounted-store previous plan true w (key desired) (ap mount_key_for q) g
        (rw e at h)) [ inl p ↦ rw (e, p) (q, a, f, c) | inr p ↦ rw (e, p) (q, a, f, inr refl) ]

  -- What the tests of an existing intent hand on is what the store holds.
  get-admit_previous :
      (desired : DesiredMount) (previous : Option DesiredMount) (w : World S N)
      (admitted : Option DesiredMount)
      → get s (key desired) w ≡ previous
      → (admit_previous s desired previous w).0 ≡ ok admitted
      → get s (key desired) (admit_previous s desired previous w).1 ≡ admitted
  unfolding admit_previous
  get-admit_previous desired none w admitted g h = ground arith
  get-admit_previous desired (some previous) w admitted g h = ground (
    arith,
    laws.get-put
        (record previous { export_root_key_fingerprint = desired.export_root_key_fingerprint })
        w.store (key desired),
  )

  complete_mount-Recorded :
      (desired : DesiredMount) (plan : MountPlan) (previous : Option DesiredMount) (done : Bool)
      (w : World S N) (r : MountResult)
      → desired.container_id ≡ []
      → get s (key desired) w ≡ previous
      → (already_mounted s desired plan previous w).0 ≡ ok done
      → (complete_mount s desired plan previous done
          (already_mounted s desired plan previous w).1).0
        ≡ ok r
      → Recorded desired plan (
          get s
            (key desired)
            (complete_mount s desired plan previous done
              (already_mounted s desired plan previous w).1).1)
  unfolding complete_mount
  complete_mount-Recorded desired plan previous true w r e g d h =
      already_mounted-Recorded desired plan previous w g d
  complete_mount-Recorded desired plan previous false w r e g d h =
      apply_mount-Recorded desired plan previous _ r e h

  -- After a successful mount for an intent that names no container yet, the store holds the intent:
  -- the same request, the same export-root decision and fingerprint, bound to the plan's container or
  -- to none yet.
  pub mount_locked-Recorded :
      (desired : DesiredMount) (plan : MountPlan) (w : World S N) (r : MountResult)
      → desired.container_id ≡ []
      → (mount_locked s desired plan w).0 ≡ ok r
      → Recorded desired plan (get s (key desired) (mount_locked s desired plan w).1)
  unfolding mount_locked
  mount_locked-Recorded desired plan w r e h =
      run-elim (λ x. Recorded desired plan (get s (key desired) x.1))
        (admit_previous s desired (get s (key desired) w))
        (λ previous. already_mounted s desired plan previous >>= λ done.
          complete_mount s desired plan previous done)
        w h
        λ previous p h1.
          run-elim (λ x. Recorded desired plan (get s (key desired) x.1))
            (already_mounted s desired plan previous) (complete_mount s desired plan previous) _ h1
            λ done d h2.
              complete_mount-Recorded desired plan previous done _ r e
                (get-admit_previous desired _ w previous refl p) d h2
