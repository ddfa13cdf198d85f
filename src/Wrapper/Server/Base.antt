-- ===== src/Wrapper/Server/Base.antt =====
-- internal/wrapper/server.go: the server's parts. Kubernetes and node.Mounter are interfaces of the
-- source; the state of a store and of a node are type parameters.
use kruise_agents_nfs_csi.Prelude.{Bool, List, Option}
use kruise_agents_nfs_csi.Go.Text.{Str}
use kruise_agents_nfs_csi.Go.Errors.{Result}
use kruise_agents_nfs_csi.Go.Exec.{Exec}
use kruise_agents_nfs_csi.Config.{WrapperConfig}
use kruise_agents_nfs_csi.Kube.{TokenReviewStatus, Pod, PersistentVolume}
use kruise_agents_nfs_csi.Node.{MountPlan}
use kruise_agents_nfs_csi.Wrapper.Desired.{DesiredMount, MountKey, MountStateStore}
use kruise_agents_nfs_csi.Wrapper.RootAuth.{ExportRootAuthorizer}

-- Kubernetes: the answers of the API server during one request. `none` is a nil status.
pub record Kubernetes : Type 0 where
  pub review_token : Str → List Str → Result (Option TokenReviewStatus)
  pub get_pod : Str → Str → Result Pod
  pub get_persistent_volume : Str → Result PersistentVolume

-- Mounter of internal/node/types.go
pub record Mounter (N : Type 0) : Type 0 where
  pub mount : MountPlan → Exec N (Unit {0})
  pub unmount : MountPlan → Exec N (Unit {0})
  pub is_mounted : MountPlan → N → Result Bool

-- Server; `sha256` is the digest that rootauth.go calls. The locks, the logger and the record of
-- reported errors are left out.
pub record Server (S N : Type 0) : Type 0 where
  pub cfg : WrapperConfig
  pub kube : Kubernetes
  pub mounter : Mounter N
  pub state : MountStateStore S
  pub export_root : ExportRootAuthorizer
  pub sha256 : Str → Str

-- What the operations change.
pub record World (S N : Type 0) : Type 0 where
  pub store : S
  pub node : N

module _ {S N : Type 0} (s : Server S N) where
  abbrev pub get : MountKey → World S N → Option DesiredMount
  get k w = s.state.get k w.store

  abbrev pub put : DesiredMount → Exec (World S N) (Unit {0})
  put m w = let (r, store) = s.state.put m w.store in (r, record w { store = store })

  abbrev pub delete : MountKey → Exec (World S N) (Unit {0})
  delete k w = let (r, store) = s.state.delete k w.store in (r, record w { store = store })

  abbrev pub node_mount : MountPlan → Exec (World S N) (Unit {0})
  node_mount plan w = let (r, node) = s.mounter.mount plan w.node in (r, record w { node = node })

  abbrev pub node_unmount : MountPlan → Exec (World S N) (Unit {0})
  node_unmount plan w =
      let (r, node) = s.mounter.unmount plan w.node in (r, record w { node = node })

  abbrev pub is_mounted : MountPlan → Exec (World S N) Bool
  is_mounted plan w = (s.mounter.is_mounted plan w.node, w)
