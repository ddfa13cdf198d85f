-- ===== src/Wrapper/Authz/Containers.antt =====
-- internal/wrapper/authz.go: the choice of the target container.
use kruise_agents_nfs_csi.Prelude.{
  Bool, ◌&&◌, List, [], ◌∷◌, map, ◌+◌, ℕ, leb, ◌==◌, any, if◌then◌else◌,
}
use kruise_agents_nfs_csi.Go.Text.{Str, codes, str_eq}
use kruise_agents_nfs_csi.Go.Errors.{Result, ok, err, text}
use kruise_agents_nfs_csi.Kube.{Pod, Container, ContainerStatus, EnvVar}

-- containerStatusByName: the first status with the name decides
unfoldable pub status_by_name : List ContainerStatus → Str → Result ContainerStatus
status_by_name [] name = err (text "container was not found in pod status")
status_by_name (status ∷ statuses) name =
    let rest = status_by_name statuses name in
    if status.name == name
    then (if status.container_id == []
        then err (text "container has empty container id")
        else ok status)
    else rest

to_lower : ℕ → ℕ
to_lower c = if leb 65 c && leb c 90 then c + 32 else c

-- strings.EqualFold with "true", whose letters fold to ASCII letters only
unfoldable pub equal_fold : Str → Str → Bool
unfolding to_lower
equal_fold s t = map to_lower s == map to_lower t

unfoldable pub sandbox_main_container : Str
unfolding codes
sandbox_main_container = codes "SANDBOX_MAIN_CONTAINER"

unfoldable pub true_text : Str
unfolding codes
true_text = codes "true"

-- The test of the inner loop of sandboxMainContainerName.
unfoldable pub marks_main : EnvVar → Bool
unfolding equal_fold
marks_main env = env.name == sandbox_main_container && equal_fold env.value true_text

-- sandboxMainContainerName: the name of the first marked container
unfoldable pub main_container_name : List Container → Str
unfolding marks_main any
main_container_name [] = []
main_container_name (container ∷ containers) =
    let rest = main_container_name containers in
    if any marks_main container.env then container.name else rest

-- The case without a name: the pod must have one container.
unfoldable pub only_status : List ContainerStatus → Result ContainerStatus
only_status (status ∷ []) =
    if status.container_id == [] then err (text "container has empty container id") else ok status
only_status _ = err (text "container_name is required")

-- selectContainerStatus
unfoldable pub select_container_status : Pod → Str → Result ContainerStatus
unfolding status_by_name main_container_name only_status
select_container_status pod requested_name =
    let main = main_container_name pod.spec.containers in
    if requested_name == []
    then (if main == []
        then only_status pod.status.container_statuses
        else status_by_name pod.status.container_statuses main)
    else status_by_name pod.status.container_statuses requested_name
