-- ===== src/Wrapper/Reconciler/Sweeps.antt =====
-- internal/wrapper/reconciler.go: a reconciliation of many intents, for a snapshot of the node's
-- pods and for one watch event.
pub mod Rounds
use kruise_agents_nfs_csi.Prelude.{
  ◌≡◌, ◌⊎◌, inl, inr, refl, subst, Bool, true, false, not, ◌&&◌, List, [], ◌∷◌, ◌++◌, Option, none,
  some, arith, ◌==◌, if◌then◌else◌,
}
use kruise_agents_nfs_csi.Go.Text.{Str, str_eq, codes}
use kruise_agents_nfs_csi.Go.Errors.{
  Err, Result, ok, err, sentinel, desired_mount_stale, not_found, is, wrap,
}
use kruise_agents_nfs_csi.Go.Exec.{Exec, raise}
use kruise_agents_nfs_csi.Go.Maps.{lookup, insert}
use kruise_agents_nfs_csi.Kube.{Pod}
use kruise_agents_nfs_csi.Wrapper.Desired.{DesiredMount, PodKey}
use kruise_agents_nfs_csi.Wrapper.Server.Base.{Server, World}
use kruise_agents_nfs_csi.Wrapper.Reconciler.{reconcile_mount_for_pod, handle_reconcile_result}
use kruise_agents_nfs_csi.Wrapper.Reconciler.Retries.{Retries, schedule_reconcile_retry}

-- namespace + "\x00" + name + "\x00" + uid
abbrev pub pod_text : Str → Str → Str → Str
pod_text namespace name uid = namespace ++ (0 ∷ name ++ (0 ∷ uid))

-- podsByUID
unfoldable pub pods_by_uid : List Pod → List (Str × Pod) → List (Str × Pod)
pods_by_uid [] m = m
pods_by_uid (pod ∷ pods) m =
    pods_by_uid pods
      (insert (pod_text pod.metadata.namespace pod.metadata.name pod.metadata.uid) pod m)

unfoldable pub find_pod : List Pod → DesiredMount → Option Pod
find_pod pods desired =
    lookup (pod_text desired.request.namespace desired.request.pod_name desired.request.pod_uid)
      (pods_by_uid pods [])

-- desiredPodKey of an event's pod
abbrev pub event_key : Pod → PodKey
event_key pod = record {
  namespace = pod.metadata.namespace;
  name = pod.metadata.name;
  uid = pod.metadata.uid;
}

abbrev stale : Err
stale = wrap "pod is gone" (sentinel desired_mount_stale)

module _ {S N : Type 0} (s : Server S N) where
  -- A pod that the snapshot lacks is asked for: it may have moved to another node.
  unfoldable pub reconcile_answered : DesiredMount → Result Pod → Exec (World S N) (Unit {0})
  reconcile_answered desired (ok pod) =
      if not (pod.spec.node_name == []) && not (pod.spec.node_name == s.cfg.node_name)
      then raise stale
      else reconcile_mount_for_pod s desired pod
  reconcile_answered desired (err e) =
      if is not_found e then raise stale else raise (wrap "get pod missing from node snapshot" e)

  unfoldable pub reconcile_missing : DesiredMount → Exec (World S N) (Unit {0})
  unfolding reconcile_answered
  reconcile_missing desired =
      reconcile_answered desired (s.kube.get_pod desired.request.namespace desired.request.pod_name)

  unfoldable pub reconcile_listed : Option Pod → DesiredMount → Exec (World S N) (Unit {0})
  reconcile_listed (some pod) desired = reconcile_mount_for_pod s desired pod
  reconcile_listed none desired = reconcile_missing desired

  -- One round of a loop: the reconciliation, its result, and the retry it may need.
  unfoldable pub sweep_one :
      DesiredMount → Exec (World S N) (Unit {0}) → World S N × Retries → World S N × Retries
  sweep_one desired run (w, retries) =
      let (result, v) = run w in
      (handle_reconcile_result s desired result v, schedule_reconcile_retry desired result retries)

  unfoldable pub sweep :
      (DesiredMount → Exec (World S N) (Unit {0}))
      → List DesiredMount
      → World S N × Retries
      → World S N × Retries
  sweep run [] state = state
  sweep run (desired ∷ mounts) state = sweep run mounts (sweep_one desired (run desired) state)

  -- reconcilePodSnapshot
  unfoldable pub reconcile_pod_snapshot : List Pod → World S N × Retries → World S N × Retries
  reconcile_pod_snapshot pods (w, retries) =
      sweep (λ desired. reconcile_listed (find_pod pods desired) desired) (s.state.list w.store)
        (w, retries)

  -- A DELETED event: nothing is scheduled for it, since its error is final.
  unfoldable pub run_event : Str → Pod → DesiredMount → Exec (World S N) (Unit {0})
  run_event type pod desired =
      if type == codes "DELETED" then raise stale else reconcile_mount_for_pod s desired pod

  -- reconcilePodEvent
  unfoldable pub reconcile_pod_event : Str → Pod → World S N × Retries → World S N × Retries
  reconcile_pod_event type pod (w, retries) =
      sweep (run_event type pod) (s.state.list_for_pod (event_key pod) w.store) (w, retries)
