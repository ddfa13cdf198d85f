-- ===== src/Wrapper/Reconciler/Retries/Claims.antt =====
-- internal/wrapper/reconciler.go: what holds of the queue of retries at any time.
use kruise_agents_nfs_csi.Prelude.{
  ℕ, ◌+◌, ◌≡◌, ◌<◌, ◌≤◌, refl, Bool, true, false, List, [], ◌∷◌, ◌++◌, Option, none, some, ltb,
  arith, ap, subst, ◌==◌, length, length-append, All, All-append, if◌then◌else◌,
}
use kruise_agents_nfs_csi.Go.Errors.{Result}
use kruise_agents_nfs_csi.Go.Maps.{lookup, insert, remove, lookup-insert, lookup-remove}
use kruise_agents_nfs_csi.Wrapper.Desired.{DesiredMount, MountKey, key, key_eq}
use kruise_agents_nfs_csi.Wrapper.Reconciler.Retries.{
  Retry, Retries, is_final, send, claim, schedule_reconcile_retry, after_attempt, first_attempt,
  Step, marked, sent, refused, received, attempted, unmarked, Reachable, started, stepped,
  reconcile_retry_delays, reconcile_retry_queue_size,
}

-- The retries of a key in a list.
unfoldable pub count : MountKey → List Retry → ℕ
count k [] = 0
count k (retry ∷ rest) = let n = count k rest in if retry.retry_key == k then n + 1 else n

count-append : (k : MountKey) (xs ys : List Retry) → count k (xs ++ ys) ≡ count k xs + count k ys
unfolding count
count-append k [] ys = omega arith
count-append k (x ∷ xs) ys = ground (arith, count-append k xs ys)

count-cons :
    (k : MountKey) (x : Retry) (xs : List Retry) → count k (x ∷ xs) ≡ count k (x ∷ []) + count k xs
unfolding count
count-cons k x xs = ground arith

-- An element taken out of a list.
count-middle :
    (k : MountKey) (before : List Retry) (x : Retry) (after : List Retry)
    → count k (before ++ (x ∷ after)) ≡ count k (x ∷ []) + count k (before ++ after)
count-middle k before x after =
    omega
      (arith, count-append k before (x ∷ after), count-append k before after, count-cons k x after)

-- Whether a key is marked.
unfoldable pub mark : Option (Unit {0}) → ℕ
mark none = 0
mark (some _) = 1

-- A delay is defined for the attempt.
abbrev pub InRange : Retry → Type 0
InRange retry = retry.attempt < length reconcile_retry_delays

-- Every retry indexes a delay that exists, the channel keeps to its size, and a key is marked
-- exactly while one goroutine or place in the channel, and no second one, has a retry of it: about
-- to be sent, queued, held by a worker, or with its mark about to be deleted.
pub record IsConsistent (r : Retries) : Type 0 where
  pub queued : All InRange r.queue
  pub held : All InRange r.held
  pub sending : All InRange r.sending
  pub size : length r.queue ≤ reconcile_retry_queue_size
  pub claimed :
      (k : MountKey)
      → count k r.sending + count k r.queue + count k r.held + count k r.leaving
        ≡ mark (lookup k r.retrying)

marked-mark :
    (desired : DesiredMount) (k : MountKey) (r : Retries)
    → lookup (key desired) r.retrying ≡ none
    → count k (first_attempt desired ∷ []) + mark (lookup k r.retrying)
      ≡ mark (lookup k (insert (key desired) tt r.retrying))
unfolding count mark
marked-mark desired k r h = ground (arith, lookup-insert (key desired) k tt r.retrying, h)

unmarked-mark :
    (retry : Retry) (k : MountKey) (r : Retries) (n : ℕ)
    → count k (retry ∷ []) + n ≡ mark (lookup k r.retrying)
    → n ≡ mark (lookup k (remove retry.retry_key r.retrying))
unfolding count mark
unmarked-mark retry k r n h = ground (arith, lookup-remove retry.retry_key k r.retrying, h)

All-split :
    (before after : List Retry) (retry : Retry)
    → All InRange (before ++ (retry ∷ after))
    → InRange retry × All InRange (before ++ after)
All-split [] after retry h = h
All-split (x ∷ before) after retry h =
    let (range, rest) = All-split before after retry h.1 in (range, (h.0, rest))

-- Of a list that is known to be split.
pub taken_out :
    (xs before after : List Retry) (retry : Retry)
    → xs ≡ before ++ (retry ∷ after)
    → All InRange xs
    → InRange retry × All InRange (before ++ after)
taken_out xs before after retry e h = All-split before after retry (subst (All InRange) e h)

count-taken :
    (k : MountKey) (xs before after : List Retry) (retry : Retry)
    → xs ≡ before ++ (retry ∷ after)
    → count k xs ≡ count k (retry ∷ []) + count k (before ++ after)
count-taken k xs before after retry e =
    omega (arith, ap (count k) e, count-middle k before retry after)

-- Behind an attempt: the retry is on its way out, or to the channel again.
after_attempt-IsConsistent :
    (retry : Retry) (outcome : Option (Result (Unit {0}))) (r : Retries)
    → IsConsistent (record r { leaving = retry ∷ r.leaving })
    → (retry.attempt + 1 < length reconcile_retry_delays
        → IsConsistent
            (record r { sending = record retry { attempt = retry.attempt + 1 } ∷ r.sending }))
    → IsConsistent (after_attempt retry outcome r)
unfolding after_attempt
after_attempt-IsConsistent retry none r out again = out
after_attempt-IsConsistent retry (some result) r out again = ground (arith, out, again)

again-count :
    (k : MountKey) (retry : Retry) (xs : List Retry)
    → count k (record retry { attempt = retry.attempt + 1 } ∷ xs) ≡ count k (retry ∷ xs)
unfolding count
again-count k retry xs = refl

attempted-IsConsistent :
    (r : Retries) (retry : Retry) (before after : List Retry) (outcome : Option (Result (Unit {0})))
    → r.held ≡ before ++ (retry ∷ after)
    → IsConsistent r
    → IsConsistent (after_attempt retry outcome (record r { held = before ++ after }))
attempted-IsConsistent r retry before after outcome e c =
    let (range, rest) = taken_out r.held before after retry e c.held in
    after_attempt-IsConsistent retry outcome (record r { held = before ++ after })
      (record {
        queued = c.queued;
        held = rest;
        sending = c.sending;
        size = c.size;
        claimed = λ k. omega (
          arith,
          c.claimed k,
          count-taken k r.held before after retry e,
          count-cons k retry r.leaving,
        );
      })
      (λ h. record {
        queued = c.queued;
        held = rest;
        sending = (h, c.sending);
        size = c.size;
        claimed = λ k. omega (
          arith,
          c.claimed k,
          count-taken k r.held before after retry e,
          count-cons k retry r.sending,
          again-count k retry r.sending,
        );
      })

Step-IsConsistent : (r t : Retries) → Step r t → IsConsistent r → IsConsistent t
Step-IsConsistent _ _ (marked r desired result failed h) c = record {
  queued = c.queued;
  held = c.held;
  sending = (omega arith, c.sending);
  size = c.size;
  claimed = λ k. omega (
    arith,
    c.claimed k,
    marked-mark desired k r h,
    count-cons k (first_attempt desired) r.sending,
  );
}
Step-IsConsistent _ _ (sent r retry before after e room) c =
    let (range, rest) = taken_out r.sending before after retry e c.sending in
    record {
      queued = All-append InRange r.queue (retry ∷ []) c.queued (range, tt);
      held = c.held;
      sending = rest;
      size = omega (arith, room, length-append r.queue (retry ∷ []));
      claimed = λ k. omega (
        arith,
        c.claimed k,
        count-taken k r.sending before after retry e,
        count-append k r.queue (retry ∷ []),
      );
    }
Step-IsConsistent _ _ (refused r retry before after e full) c =
    let (range, rest) = taken_out r.sending before after retry e c.sending in
    record {
      queued = c.queued;
      held = c.held;
      sending = rest;
      size = c.size;
      claimed = λ k. omega (
        arith,
        c.claimed k,
        count-taken k r.sending before after retry e,
        count-cons k retry r.leaving,
      );
    }
Step-IsConsistent _ _ (received r retry rest e) c =
    let queued = subst (All InRange) e c.queued in
    record {
      queued = queued.1;
      held = (queued.0, c.held);
      sending = c.sending;
      size = omega (arith, c.size, ap length e);
      claimed = λ k.
          omega (
            arith,
            c.claimed k,
            ap (count k) e,
            count-cons k retry rest,
            count-cons k retry r.held,
          );
    }
Step-IsConsistent _ _ (attempted r retry before after outcome e) c =
    attempted-IsConsistent r retry before after outcome e c
Step-IsConsistent _ _ (unmarked r retry before after e) c = record {
  queued = c.queued;
  held = c.held;
  sending = c.sending;
  size = c.size;
  claimed = λ k.
      unmarked-mark retry k r _
        (omega (arith, c.claimed k, count-taken k r.leaving before after retry e));
}

-- Whatever the reconciliations and the workers do, in any order: each retry that is about to be
-- sent, queued or held by a worker indexes a delay that exists, the channel holds 4096 retries at
-- most, and a key is marked exactly while one retry of it, and no second one, is about to be sent, is
-- queued, is held by a worker, or is given up with its mark not yet deleted.
pub Reachable-IsConsistent : (r : Retries) → Reachable r → IsConsistent r
unfolding count mark lookup
Reachable-IsConsistent r started = record {
  queued = tt;
  held = tt;
  sending = tt;
  size = omega arith;
  claimed = λ k. refl;
}
Reachable-IsConsistent r (stepped reach step) =
    Step-IsConsistent _ r step (Reachable-IsConsistent _ reach)

-- The send of a goroutine that is not interrupted is a sequence of steps.
send-Reachable :
    (retry : Retry) (r : Retries)
    → Reachable (record r { sending = retry ∷ r.sending })
    → Reachable (send retry r)
unfolding send
send-Reachable retry r reach = go (ltb (length r.queue) reconcile_retry_queue_size) refl
  where
    room : ltb (length r.queue) reconcile_retry_queue_size ≡ true → length r.queue < 4096
    room h = ground (arith, h)

    full : ltb (length r.queue) reconcile_retry_queue_size ≡ false → 4096 ≤ length r.queue
    full h = ground (arith, h)

    go :
        (b : Bool)
        → ltb (length r.queue) reconcile_retry_queue_size ≡ b
        → Reachable (
            if b
            then record r { queue = r.queue ++ (retry ∷ []) }
            else record r { retrying = remove retry.retry_key r.retrying })
    go true h = stepped reach (sent _ retry [] r.sending refl (room h))
    go false h =
        stepped (stepped reach (refused _ retry [] r.sending refl (full h)))
          (unmarked _ retry [] r.leaving refl)

-- So is the whole of scheduleReconcileRetry, as the passes over many intents run it.
pub schedule-Reachable :
    (desired : DesiredMount) (result : Result (Unit {0})) (r : Retries)
    → Reachable r
    → Reachable (schedule_reconcile_retry desired result r)
unfolding schedule_reconcile_retry claim
schedule-Reachable desired result r reach =
    go (is_final result) refl (lookup (key desired) r.retrying) refl
  where
    go :
        (b : Bool)
        → is_final result ≡ b
        → (o : Option (Unit {0})) → lookup (key desired) r.retrying ≡ o
        → Reachable (if b then r else claim (key desired) o r)
    go true h o e = reach
    go false h (some _) e = reach
    go false h none e =
        send-Reachable (first_attempt desired)
          (record r { retrying = insert (key desired) tt r.retrying })
          (stepped reach (marked r desired result h e))
