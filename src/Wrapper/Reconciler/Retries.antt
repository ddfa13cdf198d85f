-- ===== src/Wrapper/Reconciler/Retries.antt =====
-- internal/wrapper/reconciler.go: the queue of retries. A worker that has received a retry holds
-- it until its attempt is over. Each access to the map of marks or to the channel is a step of its
-- own; the waits and the end of the context are left out.
pub mod Claims
pub mod Attempts
use kruise_agents_nfs_csi.Prelude.{
  ℕ, ◌+◌, ◌≡◌, ◌<◌, ◌≤◌, Bool, true, false, ◌||◌, List, [], ◌∷◌, ◌++◌, Option, none, some, leb, ltb,
  length, if◌then◌else◌,
}
use kruise_agents_nfs_csi.Go.Errors.{
  Err, Result, ok, err, is, desired_mount_stale, desired_mount_unauthorized,
}
use kruise_agents_nfs_csi.Go.Maps.{lookup, insert, remove}
use kruise_agents_nfs_csi.Wrapper.Desired.{DesiredMount, MountKey, key, key_eq}
use kruise_agents_nfs_csi.Wrapper.Server.Base.{Server, World, get}
use kruise_agents_nfs_csi.Wrapper.Reconciler.{reconcile_mount, handle_reconcile_result}

abbrev pub reconcile_retry_queue_size : ℕ
reconcile_retry_queue_size = 4096

-- In milliseconds.
abbrev pub reconcile_retry_delays : List ℕ
reconcile_retry_delays = 200 ∷ 500 ∷ 1000 ∷ 2000 ∷ 5000 ∷ []

-- reconcileRetry
pub record Retry : Type 0 where
  pub retry_key : MountKey
  pub attempt : ℕ

-- The set of marked keys (Server.retrying), the channel, and where the goroutines stand: the retries
-- that workers have received, those that some goroutine is about to send, and those whose mark it is
-- about to delete.
pub record Retries : Type 0 where
  pub retrying : List (MountKey × (Unit {0}))
  pub queue : List Retry
  pub held : List Retry
  pub sending : List Retry
  pub leaving : List Retry

-- No retry follows a success, or an error that another attempt cannot mend.
unfoldable pub is_final : Result (Unit {0}) → Bool
is_final (ok _) = true
is_final (err e) = is desired_mount_stale e || is desired_mount_unauthorized e

-- `select { case retries <- retry: default: s.retrying.Delete(key) }`, without other goroutines
unfoldable pub send : Retry → Retries → Retries
send retry r =
    if ltb (length r.queue) reconcile_retry_queue_size
    then record r { queue = r.queue ++ (retry ∷ []) }
    else record r { retrying = remove retry.retry_key r.retrying }

-- scheduleReconcileRetry without other goroutines: LoadOrStore, then the send
unfoldable pub claim : MountKey → Option (Unit {0}) → Retries → Retries
claim k (some _) r = r
claim k none r =
    send (record { retry_key = k; attempt = 0 }) (record r { retrying = insert k tt r.retrying })

unfoldable pub schedule_reconcile_retry : DesiredMount → Result (Unit {0}) → Retries → Retries
unfolding claim
schedule_reconcile_retry desired result r =
    if is_final result then r else claim (key desired) (lookup (key desired) r.retrying) r

-- processReconcileRetries, behind an attempt; `none` where the intent is gone. What is left to do is
-- to delete the mark or to send the next attempt.
unfoldable pub after_attempt : Retry → Option (Result (Unit {0})) → Retries → Retries
after_attempt retry none r = record r { leaving = retry ∷ r.leaving }
after_attempt retry (some result) r =
    if is_final result || leb (length reconcile_retry_delays) (retry.attempt + 1)
    then record r { leaving = retry ∷ r.leaving }
    else record r { sending = record retry { attempt = retry.attempt + 1 } ∷ r.sending }

module _ {S N : Type 0} (s : Server S N) where
  -- The attempt itself: the intent is read, reconciled, and the result handled.
  unfoldable pub attempt_found :
      Option DesiredMount → World S N → Option (Result (Unit {0})) × World S N
  attempt_found none w = (none, w)
  attempt_found (some desired) w =
      let (result, v) = reconcile_mount s desired w in
      (some result, handle_reconcile_result s desired result v)

  unfoldable pub attempt_reconcile : MountKey → World S N → Option (Result (Unit {0})) × World S N
  unfolding attempt_found
  attempt_reconcile k w = attempt_found (get s k w) w

abbrev pub first_attempt : DesiredMount → Retry
first_attempt desired = record { retry_key = key desired; attempt = 0 }

-- What the goroutines do, in any order. A reconciliation outside the workers that has failed marks
-- its key by LoadOrStore, unless it is marked; whoever is about to send does so, if the channel has
-- room, or else will delete the mark; a worker receives; a worker ends its attempt; a mark is deleted.
pub data Step : Retries → Retries → Type 0 where
  marked :
      (r : Retries) (desired : DesiredMount) (result : Result (Unit {0}))
      → is_final result ≡ false
      → lookup (key desired) r.retrying ≡ none
      → Step r (record r {
        retrying = insert (key desired) tt r.retrying;
        sending = first_attempt desired ∷ r.sending;
      })
  sent :
      (r : Retries) (retry : Retry) (before after : List Retry)
      → r.sending ≡ before ++ (retry ∷ after)
      → length r.queue < reconcile_retry_queue_size
      → Step r (record r { queue = r.queue ++ (retry ∷ []); sending = before ++ after })
  refused :
      (r : Retries) (retry : Retry) (before after : List Retry)
      → r.sending ≡ before ++ (retry ∷ after)
      → reconcile_retry_queue_size ≤ length r.queue
      → Step r (record r { sending = before ++ after; leaving = retry ∷ r.leaving })
  received :
      (r : Retries) (retry : Retry) (rest : List Retry)
      → r.queue ≡ retry ∷ rest
      → Step r (record r { queue = rest; held = retry ∷ r.held })
  attempted :
      (r : Retries) (retry : Retry) (before after : List Retry)
      (outcome : Option (Result (Unit {0})))
      → r.held ≡ before ++ (retry ∷ after)
      → Step r (after_attempt retry outcome (record r { held = before ++ after }))
  unmarked :
      (r : Retries) (retry : Retry) (before after : List Retry)
      → r.leaving ≡ before ++ (retry ∷ after)
      → Step r
          (record r { retrying = remove retry.retry_key r.retrying; leaving = before ++ after })

pub data Reachable : Retries → Type 0 where
  started : Reachable (record { retrying = []; queue = []; held = []; sending = []; leaving = [] })
  stepped : {r t : Retries} → Reachable r → Step r t → Reachable t
