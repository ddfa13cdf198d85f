-- ===== src/Wrapper/Reconciler/Retries/Attempts.antt =====
-- internal/wrapper/reconciler.go: how often the workers are at work.
use kruise_agents_nfs_csi.Prelude.{
  ℕ, ◌+◌, ◌-◌, ◌*◌, ◌≡◌, ◌≤◌, ap, subst, List, [], ◌∷◌, ◌++◌, Option, none, some, arith, All,
}
use kruise_agents_nfs_csi.Go.Errors.{Result}
use kruise_agents_nfs_csi.Wrapper.Reconciler.Retries.{
  Retry, Retries, after_attempt, Step, marked, sent, refused, received, attempted, unmarked,
  Reachable, started, stepped,
}
use kruise_agents_nfs_csi.Wrapper.Reconciler.Retries.Claims.{
  InRange, IsConsistent, Reachable-IsConsistent, taken_out,
}

-- The steps in which a worker receives a retry, or ends an attempt.
unfoldable pub work : {r t : Retries} → Step r t → ℕ
work (received _ _ _ _) = 1
work (attempted _ _ _ _ _ _) = 1
work _ = 0

-- The steps in which a reconciliation outside the workers has failed and marks its key.
unfoldable pub starts : {r t : Retries} → Step r t → ℕ
starts (marked _ _ _ _ _) = 1
starts _ = 0

-- A state of the queue with the number of the workers' steps before it, and of the failures of
-- reconciliations outside the workers that have marked a key.
pub data Counted : ℕ → ℕ → Retries → Type 0 where
  begun : Counted 0 0 (record { retrying = []; queue = []; held = []; sending = []; leaving = [] })
  counted :
      {n s : ℕ} {r t : Retries} (step : Step r t)
      → Counted n s r
      → Counted (n + work step) (s + starts step) t

Counted-Reachable : {n s : ℕ} {r : Retries} → Counted n s r → Reachable r
Counted-Reachable begun = started
Counted-Reachable (counted step c) = stepped (Counted-Reachable c) step

-- The steps that a retry in the channel or on its way there, and one with a worker, still cost at
-- most.
unfoldable queued_cost : List Retry → ℕ
queued_cost [] = 0
queued_cost (retry ∷ rest) = 2 * (5 - retry.attempt) + queued_cost rest

unfoldable held_cost : List Retry → ℕ
held_cost [] = 0
held_cost (retry ∷ rest) = (2 * (5 - retry.attempt) - 1) + held_cost rest

queued_cost-append : (xs ys : List Retry) → queued_cost (xs ++ ys) ≡ queued_cost xs + queued_cost ys
unfolding queued_cost
queued_cost-append [] ys = omega arith
queued_cost-append (x ∷ xs) ys = omega (arith, queued_cost-append xs ys)

held_cost-append : (xs ys : List Retry) → held_cost (xs ++ ys) ≡ held_cost xs + held_cost ys
unfolding held_cost
held_cost-append [] ys = omega arith
held_cost-append (x ∷ xs) ys = omega (arith, held_cost-append xs ys)

unfoldable cost : Retries → ℕ
cost r = queued_cost r.sending + queued_cost r.queue + held_cost r.held

-- A retry that is taken out of the list of those about to be sent, and of those held.
sending-cost :
    (xs before after : List Retry) (retry : Retry)
    → xs ≡ before ++ (retry ∷ after)
    → queued_cost xs ≡ 2 * (5 - retry.attempt) + queued_cost (before ++ after)
unfolding queued_cost
sending-cost xs before after retry e = omega (
  arith,
  ap queued_cost e,
  queued_cost-append before (retry ∷ after),
  queued_cost-append before after,
)

holding-cost :
    (xs before after : List Retry) (retry : Retry)
    → xs ≡ before ++ (retry ∷ after)
    → held_cost xs ≡ (2 * (5 - retry.attempt) - 1) + held_cost (before ++ after)
unfolding held_cost
holding-cost xs before after retry e =
    omega (
      arith,
      ap held_cost e,
      held_cost-append before (retry ∷ after),
      held_cost-append before after,
    )

after_attempt-cost :
    (retry : Retry) (outcome : Option (Result (Unit {0}))) (r : Retries)
    → cost (after_attempt retry outcome r) ≤ cost r + 2 * (5 - (retry.attempt + 1))
unfolding after_attempt cost queued_cost
after_attempt-cost retry none r = omega arith
after_attempt-cost retry (some result) r = ground arith

Step-cost :
    {r t : Retries} (step : Step r t)
    → IsConsistent r
    → work step + cost t ≤ cost r + 10 * starts step
unfolding work starts cost queued_cost held_cost
Step-cost (marked r desired result failed h) c = omega arith
Step-cost (sent r retry before after e room) c =
    omega
      (arith, sending-cost r.sending before after retry e, queued_cost-append r.queue (retry ∷ []))
Step-cost (refused r retry before after e full) c =
    omega (arith, sending-cost r.sending before after retry e)
Step-cost (received r retry rest e) c =
    omega (arith, (subst (All InRange) e c.queued).0, ap queued_cost e)
Step-cost (attempted r retry before after outcome e) c = omega (
  arith,
  (taken_out r.held before after retry e c.held).0,
  holding-cost r.held before after retry e,
  after_attempt-cost retry outcome (record r { held = before ++ after }),
)
Step-cost (unmarked r retry before after e) c = omega arith

-- The bound, and what the retries that are left may still add to the steps.
Counted-cost : {n s : ℕ} {r : Retries} → Counted n s r → n + cost r ≤ 10 * s
unfolding cost queued_cost held_cost
Counted-cost begun = omega arith
Counted-cost (counted step c) =
    omega (arith, Counted-cost c, Step-cost step (Reachable-IsConsistent _ (Counted-Reachable c)))

-- However the goroutines take turns, the steps in which a worker receives a retry or ends an attempt
-- are at most ten for each reconciliation outside the workers that has failed and marked its key.
pub Counted-bound : {n s : ℕ} {r : Retries} → Counted n s r → n ≤ 10 * s
Counted-bound {n} {s} {r} c = omega (arith, Counted-cost c)
