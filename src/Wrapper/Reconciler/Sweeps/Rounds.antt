-- ===== src/Wrapper/Reconciler/Sweeps/Rounds.antt =====
-- internal/wrapper/reconciler.go: what the rounds of a reconciliation of many intents do to the node.
use kruise_agents_nfs_csi.Prelude.{
  ◌≡◌, ◌≢◌, ◌⊎◌, inl, inr, refl, sym, ap, ◌∙◌, Bool, true, false, List, [], ◌∷◌, Option, none, some,
  arith, ◌==◌, if◌then◌else◌, Any, All,
}
use kruise_agents_nfs_csi.Go.Text.{Str, str_eq, codes}
use kruise_agents_nfs_csi.Go.Errors.{Err, Result, ok, err, is, not_found}
use kruise_agents_nfs_csi.Go.Exec.{Exec, raise}
use kruise_agents_nfs_csi.Go.Maps.{lookup, insert, lookup-insert}
use kruise_agents_nfs_csi.Kube.{Pod}
use kruise_agents_nfs_csi.Wrapper.Desired.{DesiredMount}
use kruise_agents_nfs_csi.Wrapper.Server.Base.{Server, World}
use kruise_agents_nfs_csi.Wrapper.Reconciler.{reconcile_mount_for_pod, handle_reconcile_result}
use kruise_agents_nfs_csi.Wrapper.Reconciler.Remount.{
  IsRemountOf, reconcile_mount_for_pod-IsRemountOf,
}
use kruise_agents_nfs_csi.Wrapper.Reconciler.Retries.{Retries, schedule_reconcile_retry}
use kruise_agents_nfs_csi.Wrapper.Reconciler.Sweeps.{
  pod_text, pods_by_uid, find_pod, stale, event_key, reconcile_answered, reconcile_missing,
  reconcile_listed, sweep_one, sweep, reconcile_pod_snapshot, run_event, reconcile_pod_event,
}

-- The key that the snapshot's map has the pod under, and the key that an intent asks it for.
abbrev pub pod_name_of : Pod → Str
pod_name_of pod = pod_text pod.metadata.namespace pod.metadata.name pod.metadata.uid

abbrev pub wanted_by : DesiredMount → Str
wanted_by desired =
    pod_text desired.request.namespace desired.request.pod_name desired.request.pod_uid

-- A listed pod of this name.
abbrev pub IsListed : Str → List Pod → Pod → Type 0
IsListed name pods pod = (Any (λ other. other ≡ pod) pods) × (pod_name_of pod ≡ name)

-- No listed pod has the name.
abbrev pub IsMissing : Str → List Pod → Type 0
IsMissing name pods = All (λ pod. pod_name_of pod ≢ name) pods

inserted-some :
    (name other : Str) (p pod : Pod) (m : List (Str × Pod))
    → lookup name (insert other p m) ≡ some pod
    → ((p ≡ pod) × (other ≡ name)) ⊎ (lookup name m ≡ some pod)
inserted-some name other p pod m h = ground (arith, lookup-insert other name p m)

inserted-none :
    (name other : Str) (p : Pod) (m : List (Str × Pod))
    → lookup name (insert other p m) ≡ none
    → (other ≢ name) × (lookup name m ≡ none)
inserted-none name other p m h = ground (arith, lookup-insert other name p m)

-- What a name in the map is: a listed pod of this name, or an entry that was there before.
pods_by_uid-some :
    (name : Str) (pods : List Pod) (m : List (Str × Pod)) (pod : Pod)
    → lookup name (pods_by_uid pods m) ≡ some pod
    → (IsListed name pods pod) ⊎ (lookup name m ≡ some pod)
unfolding pods_by_uid
pods_by_uid-some name [] m pod h = inr h
pods_by_uid-some name (p ∷ pods) m pod h =
    elim (pods_by_uid-some name pods (insert (pod_name_of p) p m) pod h) [
      | inl (member, e) ↦ inl (inr member, e)
      | inr found ↦ elim (inserted-some name (pod_name_of p) p pod m found) [
        | inl (same, e) ↦ inl (inl same, sym (ap pod_name_of same) ∙ e)
        | inr before ↦ inr before
      ]
    ]

pods_by_uid-none :
    (name : Str) (pods : List Pod) (m : List (Str × Pod))
    → lookup name (pods_by_uid pods m) ≡ none
    → (IsMissing name pods) × (lookup name m ≡ none)
unfolding pods_by_uid
pods_by_uid-none name [] m h = (tt, h)
pods_by_uid-none name (p ∷ pods) m h =
    let (missing, found) = pods_by_uid-none name pods (insert (pod_name_of p) p m) h in
    let (other, before) = inserted-none name (pod_name_of p) p m found in ((other, missing), before)

find_pod-some :
    (pods : List Pod) (desired : DesiredMount) (pod : Pod)
    → find_pod pods desired ≡ some pod
    → IsListed (wanted_by desired) pods pod
unfolding find_pod lookup
find_pod-some pods desired pod h = elim (pods_by_uid-some (wanted_by desired) pods [] pod h) [
  | inl listed ↦ listed
  | inr before ↦ absurd (not_some before)
]
  where
    not_some : (none ≡ some pod) → ⊥
    not_some e = cc

find_pod-none :
    (pods : List Pod) (desired : DesiredMount)
    → find_pod pods desired ≡ none
    → IsMissing (wanted_by desired) pods
unfolding find_pod lookup
find_pod-none pods desired h = (pods_by_uid-none (wanted_by desired) pods [] h).0

module _ {S N : Type 0} (s : Server S N) where
  -- The pod that an intent is reconciled for: the listed one of its name or, where the list has none,
  -- the one that the API server has under the name now.
  abbrev pub IsPodOf : List Pod → DesiredMount → Pod → Type 0
  IsPodOf pods desired pod =
      (IsListed (wanted_by desired) pods pod)
      ⊎ ((IsMissing (wanted_by desired) pods)
          × (s.kube.get_pod desired.request.namespace desired.request.pod_name ≡ ok pod))

  -- One round: the node is as before, or the one change is a remount of this very intent for such a
  -- pod.
  abbrev pub IsRound : (DesiredMount → Pod → Type 0) → DesiredMount → World S N → World S N → Type 0
  IsRound For desired w v =
      (v.node ≡ w.node) ⊎ ((pod : Pod) × For desired pod × IsRemountOf s desired pod w v)

  -- The rounds for these intents, in their order, from one state to another: each is a run, and
  -- leads to the state in which its result has been handled and its retry scheduled.
  pub data Rounds (run : DesiredMount → Exec (World S N) (Unit {0}))
      (For : DesiredMount → Pod → Type 0)
      : List DesiredMount → World S N × Retries → World S N × Retries → Type 0 where
    finished : (state : World S N × Retries) → Rounds run For [] state state
    round :
        (desired : DesiredMount) (mounts : List DesiredMount) (w : World S N) (retries : Retries)
        (last : World S N × Retries)
        → IsRound For desired w (run desired w).1
        → (handle_reconcile_result s desired (run desired w).0 (run desired w).1).node
          ≡ (run desired w).1.node
        → Rounds run For mounts (sweep_one s desired (run desired) (w, retries)) last
        → Rounds run For (desired ∷ mounts) (w, retries) last

  handle_reconcile_result-node :
      (desired : DesiredMount) (result : Result (Unit {0})) (w : World S N)
      → (handle_reconcile_result s desired result w).node ≡ w.node
  unfolding handle_reconcile_result
  handle_reconcile_result-node desired (ok _) w = refl
  handle_reconcile_result-node desired (err e) w = ground arith

  -- A run does one remount at most, and for such a pod.
  abbrev Careful :
      (DesiredMount → Pod → Type 0) → DesiredMount → Exec (World S N) (Unit {0}) → Type 0
  Careful For desired run = (w : World S N) → IsRound For desired w (run w).1

  for_pod-Careful :
      (For : DesiredMount → Pod → Type 0) (desired : DesiredMount) (pod : Pod)
      → For desired pod
      → Careful For desired (reconcile_mount_for_pod s desired pod)
  for_pod-Careful For desired pod h w = elim (reconcile_mount_for_pod-IsRemountOf s desired pod w) [
    | inl same ↦ inl same
    | inr remount ↦ inr (pod, h, remount)
  ]

  either-Careful :
      (For : DesiredMount → Pod → Type 0) (desired : DesiredMount) (b : Bool) (e : Err)
      (run : Exec (World S N) (Unit {0}))
      → (b ≡ false → Careful For desired run)
      → Careful For desired (if b then raise e else run)
  either-Careful For desired true e run h w = inl refl
  either-Careful For desired false e run h w = h refl w

  answered-Careful :
      (For : DesiredMount → Pod → Type 0) (desired : DesiredMount) (r : Result Pod)
      → ((pod : Pod) → r ≡ ok pod → For desired pod)
      → Careful For desired (reconcile_answered s desired r)
  unfolding reconcile_answered
  answered-Careful For desired (ok pod) h =
      either-Careful For desired _ stale _ (λ b. for_pod-Careful For desired pod (h pod refl))
  answered-Careful For desired (err e) h =
      either-Careful For desired (is not_found e) stale _ (λ b w. inl refl)

  listed-Careful :
      (pods : List Pod) (desired : DesiredMount) (o : Option Pod)
      → find_pod pods desired ≡ o
      → Careful (IsPodOf pods) desired (reconcile_listed s o desired)
  unfolding reconcile_listed reconcile_missing
  listed-Careful pods desired (some pod) h =
      for_pod-Careful (IsPodOf pods) desired pod (inl (find_pod-some pods desired pod h))
  listed-Careful pods desired none h =
      answered-Careful (IsPodOf pods) desired
        (s.kube.get_pod desired.request.namespace desired.request.pod_name)
        (λ pod answer. inr (find_pod-none pods desired h, answer))

  -- The intents that an event reconciles are those of its pod, unless it is a deletion.
  abbrev pub IsEventPod : Str → Pod → DesiredMount → Pod → Type 0
  IsEventPod type pod desired other = (type ≢ codes "DELETED") × (other ≡ pod)

  kept_type : (type : Str) → (type == codes "DELETED") ≡ false → type ≢ codes "DELETED"
  kept_type type h e = ground arith

  run_event-Careful :
      (type : Str) (pod : Pod) (desired : DesiredMount)
      → Careful (IsEventPod type pod) desired (run_event s type pod desired)
  unfolding run_event
  run_event-Careful type pod desired =
      either-Careful (IsEventPod type pod) desired (type == codes "DELETED") stale _
        (λ b. for_pod-Careful (IsEventPod type pod) desired pod (kept_type type b, refl))

  sweep-Rounds :
      (run : DesiredMount → Exec (World S N) (Unit {0})) (For : DesiredMount → Pod → Type 0)
      (mounts : List DesiredMount) (w : World S N) (retries : Retries)
      → ((desired : DesiredMount) → Careful For desired (run desired))
      → Rounds run For mounts (w, retries) (sweep s run mounts (w, retries))
  unfolding sweep sweep_one
  sweep-Rounds run For [] w retries h = finished (w, retries)
  sweep-Rounds run For (desired ∷ mounts) w retries h =
      round desired mounts w retries _ (h desired w)
        (handle_reconcile_result-node desired (run desired w).0 (run desired w).1)
        (sweep-Rounds run For mounts
          (handle_reconcile_result s desired (run desired w).0 (run desired w).1)
          (schedule_reconcile_retry desired (run desired w).0 retries) h)

  -- A pass over the stored intents is one round for each of them, in their order. In each round the
  -- node stays as it was, or is asked for one mount, which the reconciler's checks have allowed for
  -- this intent and for the listed pod of its name, or, only where none is listed, for the pod that
  -- the API server has under the name; what follows a round changes nothing on the node.
  pub reconcile_pod_snapshot-Rounds :
      (pods : List Pod) (w : World S N) (retries : Retries)
      → Rounds
          (λ desired. reconcile_listed s (find_pod pods desired) desired)
          (IsPodOf pods)
          (s.state.list w.store)
          (w, retries)
          (reconcile_pod_snapshot s pods (w, retries))
  unfolding reconcile_pod_snapshot
  reconcile_pod_snapshot-Rounds pods w retries =
      sweep-Rounds _ (IsPodOf pods) (s.state.list w.store) w retries
        (λ desired. listed-Careful pods desired (find_pod pods desired) refl)

  -- One watch event is a round for each intent of its pod, all of them for that pod; a deletion asks
  -- for no mount.
  pub reconcile_pod_event-Rounds :
      (type : Str) (pod : Pod) (w : World S N) (retries : Retries)
      → Rounds
          (run_event s type pod)
          (IsEventPod type pod)
          (s.state.list_for_pod (event_key pod) w.store)
          (w, retries)
          (reconcile_pod_event s type pod (w, retries))
  unfolding reconcile_pod_event
  reconcile_pod_event-Rounds type pod w retries =
      sweep-Rounds (run_event s type pod) (IsEventPod type pod)
        (s.state.list_for_pod (event_key pod) w.store) w retries (run_event-Careful type pod)
