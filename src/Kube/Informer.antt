-- ===== src/Kube/Informer.antt =====
-- internal/kube/informer.go: the pods that the informer's cache keeps, and their snapshots. A
-- corev1.Pod is read in the fields that the source reads, so it is modelled by the same record as
-- kube.Pod, and a snapshot of a pod is the pod.
use kruise_agents_nfs_csi.Prelude.{
  Bool, true, false, ◌&&◌, List, [], ◌∷◌, none, some, map, length, nat_eq, ◌==◌, if◌then◌else◌,
}
use kruise_agents_nfs_csi.Go.Text.{Str, str_eq}
use kruise_agents_nfs_csi.Go.Maps.{lookup, insert}
use kruise_agents_nfs_csi.Kube.{Pod, Container, EnvVar, ContainerStatus}
use kruise_agents_nfs_csi.Wrapper.Authz.Containers.{sandbox_main_container}

-- The inner loop: only the variable that marks the main container is kept.
unfoldable pub trim_env : List EnvVar → List EnvVar
trim_env [] = []
trim_env (env ∷ envs) =
    let rest = trim_env envs in
    if env.name == sandbox_main_container
    then record { name = env.name; value = env.value } ∷ rest
    else rest

unfoldable pub trim_container : Container → Container
unfolding trim_env
trim_container container = record { name = container.name; env = trim_env container.env }

unfoldable pub trim_status : ContainerStatus → ContainerStatus
trim_status status = record {
  name = status.name;
  container_id = status.container_id;
  ready = false;
}

-- trimPodForInformerCache, on a pod
unfoldable pub trim_pod_for_informer_cache : Pod → Pod
unfolding trim_container trim_status
trim_pod_for_informer_cache pod = record {
  metadata = record {
    name = pod.metadata.name;
    namespace = pod.metadata.namespace;
    uid = pod.metadata.uid;
    labels = [];
    annotations = [];
    owner_references = [];
  };
  spec = record {
    service_account_name = pod.spec.service_account_name;
    node_name = pod.spec.node_name;
    volumes = [];
    containers = map trim_container pod.spec.containers;
  };
  status = record {
    phase = pod.status.phase;
    container_statuses = map trim_status pod.status.container_statuses;
  };
}

-- leftIDs of sameContainerState
unfoldable pub container_ids : List ContainerStatus → List (Str × Str) → List (Str × Str)
container_ids [] ids = ids
container_ids (status ∷ statuses) ids =
    container_ids statuses (insert status.name status.container_id ids)

unfoldable pub same_ids : List (Str × Str) → List ContainerStatus → Bool
same_ids ids [] = true
same_ids ids (status ∷ statuses) =
    let rest = same_ids ids statuses in
    elim (lookup status.name ids) [ none ↦ false | some id ↦ id == status.container_id && rest ]

-- sameContainerState
unfoldable pub same_container_state : Pod → Pod → Bool
unfolding container_ids same_ids
same_container_state left right =
    left.status.phase == right.status.phase
    && length left.status.container_statuses == length right.status.container_statuses
    && same_ids (container_ids left.status.container_statuses []) right.status.container_statuses
