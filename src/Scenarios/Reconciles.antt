-- ===== src/Scenarios/Reconciles.antt =====
-- Reconciliations of the fixture's intent, whose container has been restarted.
use kruise_agents_nfs_csi.Prelude.{◌≡◌, ◌⊎◌, ◌↔◌, true, [], ◌∷◌, none, some}
use kruise_agents_nfs_csi.Go.Errors.{ok, err, sentinel, desired_mount_stale, text}
use kruise_agents_nfs_csi.Kube.{Pod}
use kruise_agents_nfs_csi.Kube.Informer.{trim_pod_for_informer_cache}
use kruise_agents_nfs_csi.Wrapper.Desired.{key}
use kruise_agents_nfs_csi.Wrapper.Server.Base.{get}
use kruise_agents_nfs_csi.Wrapper.Reconciler.{
  reauthorize, reconcile_mount_for_pod, handle_reconcile_result,
}
use kruise_agents_nfs_csi.Wrapper.Reconciler.Remount.{IsRemount, reconcile_mount_for_pod-Outcome}
use kruise_agents_nfs_csi.Wrapper.Reconciler.Renewed.{Stands, Granted, renewed, reauthorize_iff}
use kruise_agents_nfs_csi.Wrapper.Reconciler.Results.{SaysStale, handle_reconcile_result-get}
use kruise_agents_nfs_csi.Wrapper.Reconciler.Retries.{Retries, started, schedule_reconcile_retry}
use kruise_agents_nfs_csi.Wrapper.Reconciler.Retries.Claims.{
  IsConsistent, Reachable-IsConsistent, schedule-Reachable,
}
use kruise_agents_nfs_csi.Wrapper.Reconciler.Sweeps.{
  find_pod, reconcile_listed, reconcile_pod_snapshot,
}
use kruise_agents_nfs_csi.Wrapper.Reconciler.Sweeps.Rounds.{
  Rounds, IsPodOf, reconcile_pod_snapshot-Rounds,
}
use kruise_agents_nfs_csi.Wrapper.Reconciler.Cached.{reconcile_mount_for_pod-trim}
use kruise_agents_nfs_csi.Wrapper.State.Files.Kept.{file_store-IsStore}
use kruise_agents_nfs_csi.Scenarios.Fixture.{
  server, files, bound_world, bound, plan, pod, container, root,
}

-- The pod after its container has been restarted.
abbrev restarted : Pod
restarted = record pod {
  status = record {
    phase = [];
    container_statuses =
        record { name = container; container_id = 99 ∷ 50 ∷ []; ready = true } ∷ [];
  };
}

reauthorize_iff_example : (reauthorize root bound plan ≡ ok bound) ↔ (
    (Stands root bound plan)
    × (Granted root bound.export_root_key_fingerprint plan)
    × (bound ≡ renewed root bound plan))
reauthorize_iff_example = reauthorize_iff root bound bound plan

reconcile_mount_for_pod-Outcome_example :
    ((reconcile_mount_for_pod server bound restarted bound_world).1.node ≡ bound_world.node)
    ⊎ IsRemount server restarted bound_world
        (reconcile_mount_for_pod server bound restarted bound_world).1
reconcile_mount_for_pod-Outcome_example =
    reconcile_mount_for_pod-Outcome server bound restarted bound_world

reconcile_mount_for_pod-trim_example :
    reconcile_mount_for_pod server bound (trim_pod_for_informer_cache restarted) bound_world
    ≡ reconcile_mount_for_pod server bound restarted bound_world
reconcile_mount_for_pod-trim_example =
    reconcile_mount_for_pod-trim server bound restarted bound_world

-- No reconciliation has failed yet.
abbrev idle : Retries
idle = record { retrying = []; queue = []; held = []; sending = []; leaving = [] }

reconcile_pod_snapshot-Rounds_example :
    Rounds server
      (λ desired. reconcile_listed server (find_pod (restarted ∷ []) desired) desired)
      (IsPodOf server (restarted ∷ []))
      (server.state.list bound_world.store)
      (bound_world, idle)
      (reconcile_pod_snapshot server (restarted ∷ []) (bound_world, idle))
reconcile_pod_snapshot-Rounds_example =
    reconcile_pod_snapshot-Rounds server (restarted ∷ []) bound_world idle

handle_reconcile_result-get_example :
    ((handle_reconcile_result server bound (err (sentinel desired_mount_stale)) bound_world).node
      ≡ bound_world.node)
    × ((get server
            (key bound)
            (handle_reconcile_result server bound (err (sentinel desired_mount_stale)) bound_world)
          ≡ get server (key bound) bound_world)
        ⊎ ((SaysStale (err (sentinel desired_mount_stale)))
            × (key bound ≡ key bound)
            × (get server (key bound) bound_world ≡ some bound)
            × (get server (key bound) (
                  handle_reconcile_result server bound
                    (err (sentinel desired_mount_stale))
                    bound_world)
                ≡ none)))
handle_reconcile_result-get_example =
    handle_reconcile_result-get server (file_store-IsStore files) bound
      (err (sentinel desired_mount_stale)) bound_world (key bound)

-- A reconciliation has failed once.
abbrev queued : Retries
queued = schedule_reconcile_retry bound (err (text "mount failed")) idle

Reachable-IsConsistent_example : IsConsistent queued
Reachable-IsConsistent_example =
    Reachable-IsConsistent queued
      (schedule-Reachable bound (err (text "mount failed")) idle started)
