-- ===== src/Wrapper/Server/Unmount/Outcomes.antt =====
-- internal/wrapper/server.go: what unmount does to the store and to the node.
use kruise_agents_nfs_csi.Prelude.{◌≡◌, ◌≢◌, ◌⊎◌, inl, refl, [], Option, none, some, arith}
use kruise_agents_nfs_csi.Go.Text.{str_eq}
use kruise_agents_nfs_csi.Go.Errors.{ok}
use kruise_agents_nfs_csi.Api.{MountRequest, UnmountResult}
use kruise_agents_nfs_csi.Kube.{Pod, ContainerStatus}
use kruise_agents_nfs_csi.Wrapper.Desired.{DesiredMount, IsStore, key_eq, mount_key_for}
use kruise_agents_nfs_csi.Wrapper.Server.Base.{Server, World, get}
use kruise_agents_nfs_csi.Wrapper.Server.Mount.{restore_desired_mount, roll_back}
use kruise_agents_nfs_csi.Wrapper.Server.Unmount.{
  unmount_plan, apply_unmount, drop_stale, unmount_found, unmount_locked,
}

module _ {S N : Type 0} (s : Server S N) (laws : IsStore s.state) where
  unmount_found-get :
      (request : MountRequest) (pod : Pod) (status : ContainerStatus)
      (previous : Option DesiredMount) (w : World S N) (r : UnmountResult)
      → get s (mount_key_for request) w ≡ previous
      → (unmount_found s request pod status previous w).0 ≡ ok r
      → get s (mount_key_for request) (unmount_found s request pod status previous w).1 ≡ none
  unfolding unmount_found drop_stale apply_unmount roll_back
  unmount_found-get request pod status none w r g h = g
  unmount_found-get request pod status (some previous) w r g h =
      ground (arith, laws.get-delete (mount_key_for request) w.store (mount_key_for request))

  -- After an unmount that succeeds the store holds no intent for the target.
  pub unmount_locked-get :
      (request : MountRequest) (pod : Pod) (status : ContainerStatus) (w : World S N)
      (r : UnmountResult)
      → (unmount_locked s request pod status w).0 ≡ ok r
      → get s (mount_key_for request) (unmount_locked s request pod status w).1 ≡ none
  unfolding unmount_locked
  unmount_locked-get request pod status w r h =
      unmount_found-get request pod status (get s (mount_key_for request) w) w r refl h

  -- The stored intent of the target is bound to this container of the pod.
  abbrev pub BoundTo : MountRequest → ContainerStatus → Option DesiredMount → Type 0
  BoundTo request status none = ⊥
  BoundTo request status (some previous) =
      (previous.container_id ≢ [])
      × (previous.container_id ≡ status.container_id)
      × (previous.request.pv_name ≡ request.pv_name)

  unmount_found-node :
      (request : MountRequest) (pod : Pod) (status : ContainerStatus)
      (previous : Option DesiredMount) (w : World S N)
      → ((unmount_found s request pod status previous w).1.node ≡ w.node)
        ⊎ ((BoundTo request status previous)
            × ((unmount_found s request pod status previous w).1.node
                ≡ (s.mounter.unmount (unmount_plan request pod status) w.node).1))
  unfolding unmount_found drop_stale apply_unmount roll_back restore_desired_mount
  unmount_found-node request pod status none w = inl refl
  unmount_found-node request pod status (some previous) w = ground arith

  -- Unmount leaves the node alone, unless the stored intent of the target is bound to the pod's
  -- current container and to the volume of the request; then it unmounts that target at most.
  pub unmount_locked-node :
      (request : MountRequest) (pod : Pod) (status : ContainerStatus) (w : World S N)
      → ((unmount_locked s request pod status w).1.node ≡ w.node)
        ⊎ (BoundTo request status (get s (mount_key_for request) w)
            × ((unmount_locked s request pod status w).1.node
                ≡ (s.mounter.unmount (unmount_plan request pod status) w.node).1))
  unfolding unmount_locked
  unmount_locked-node request pod status w =
      unmount_found-node request pod status (get s (mount_key_for request) w) w
