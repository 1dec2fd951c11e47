-- ===== src/Execution/Workers/Mutex.antt =====
-- The claims stay exclusive along every history of the workers, the manual calls, reconciliation
-- and restarts.
use evergent.Base.{
  ℕ, ◌≡◌, refl, sym, subst, ◌≢◌, inl, inr, true, List, Option, none, some, String, arith, All,
  Bool-cases, get_or_else,
}
use evergent.Base.Text.{is_given}
use evergent.Execution.{executing, submitted, ExecutionRecord}
use evergent.Execution.Store.{Store, Patch, update_if_status}
use evergent.Execution.Queue.{
  QueueConfig, Executed, PreCheckResult, found, not_found, network_error, raises, finish,
}
use evergent.Execution.Queue.Outcomes.{get-finish_ne}
use evergent.Execution.Queue.Manual.{
  may_retry, retry_from, cancel_from, requeue_patch, found_patch, cancel_patch, requeue, requeued,
  by_answer, cancel_reply,
}
use evergent.Execution.Reconciler.{
  TransactionStatus, ReconciliationResult, reconcile_one, apply_status, confirm_patch, fail_patch,
}
use evergent.Execution.Reconciler.Effect.{count_confirmed_store, count_failed_store}
use evergent.Execution.Workers.{
  System, Pick, here, there, Step, enqueued, started, ended, retried, withdrawn, settled, restarted,
  Reach, start, step,
}
use evergent.Execution.Workers.Exclusion.{
  IsOther, IsExclusive, IsExclusive-frame, update_if_status-IsExclusive, enqueue-IsExclusive,
  claim-IsExclusive,
}

Pick-All :
    (P : ExecutionRecord → Type 0) {r : ExecutionRecord} {rs qs : List ExecutionRecord}
    → Pick r rs qs
    → All P rs
    → P r × All P qs
Pick-All P here h = (h.0, h.1)
Pick-All P (there p) h = let (at, rest) = Pick-All P p h.1 in (at, (h.0, rest))

Pick-IsExclusive :
    (s : Store) {r : ExecutionRecord} {rs qs : List ExecutionRecord}
    → Pick r rs qs
    → IsExclusive s rs
    → All (IsOther r.id) qs × IsExclusive s qs
Pick-IsExclusive s here h = (h.1, h.2)
Pick-IsExclusive s (there p) (runs, others, h) =
    let (differs, rest) = Pick-All _ p others in
    let (apart, ih) = Pick-IsExclusive s p h in (((λ e. differs (sym e)), apart), (runs, rest, ih))

finish-IsExclusive :
    (cfg : QueueConfig) (now : ℕ) (r : ExecutionRecord) (ex : Executed) (s : Store)
    {rs qs : List ExecutionRecord}
    → Pick r rs qs
    → IsExclusive s rs
    → IsExclusive (finish cfg now r ex s) qs
finish-IsExclusive cfg now r ex s {qs} p h =
    let (apart, rest) = Pick-IsExclusive s p h in
    IsExclusive-frame s (finish cfg now r ex s) r.id qs (λ j d. get-finish_ne cfg now r ex s j d)
      apart rest

may_retry-calm : (r : ExecutionRecord) → may_retry r ≡ true → r.status ≢ executing
may_retry-calm r h e = ground (arith, h, e)

requeued_store : (p : Store × Option ExecutionRecord) → (requeued p).0 ≡ p.0
requeued_store (s, none) = refl
requeued_store (s, some r) = refl

cancel_reply_store : (p : Store × Option ExecutionRecord) → (cancel_reply p).0 ≡ p.0
cancel_reply_store (s, none) = refl
cancel_reply_store (s, some r) = refl

module _ (existing : ExecutionRecord) (id : String) (now : ℕ) (s : Store)
    (rs : List ExecutionRecord) (calm : existing.status ≢ executing) (h : IsExclusive s rs) where
  requeue-IsExclusive : IsExclusive (requeue existing id now s).0 rs
  requeue-IsExclusive =
      subst (λ t. IsExclusive t rs)
        (sym (requeued_store (update_if_status id existing.status (requeue_patch now) s)))
        (update_if_status-IsExclusive id existing.status (requeue_patch now) s rs calm h)

  by_answer-IsExclusive : (a : PreCheckResult) → IsExclusive (by_answer a existing id now s).0 rs
  by_answer-IsExclusive found =
      update_if_status-IsExclusive id existing.status (found_patch existing.submitted_hash now) s rs
        calm h
  by_answer-IsExclusive network_error = h
  by_answer-IsExclusive raises = h
  by_answer-IsExclusive not_found = requeue-IsExclusive

  retry_from-IsExclusive :
      (pre_check : Option (String → PreCheckResult))
      → IsExclusive (retry_from pre_check existing id now s).0 rs
  unfolding retry_from
  retry_from-IsExclusive none = requeue-IsExclusive
  retry_from-IsExclusive (some f) = elim (Bool-cases (is_given existing.submitted_hash)) [
    | inl e ↦ rw e (by_answer-IsExclusive (f (get_or_else existing.submitted_hash "")))
    | inr e ↦ rw e requeue-IsExclusive
  ]

  cancel_from-IsExclusive : IsExclusive (cancel_from existing id now s).0 rs
  unfolding cancel_from
  cancel_from-IsExclusive =
      subst (λ t. IsExclusive t rs)
        (sym (cancel_reply_store (update_if_status id existing.status (cancel_patch now) s)))
        (update_if_status-IsExclusive id existing.status (cancel_patch now) s rs calm h)

module _ (now : ℕ) (s : Store) (c : ReconciliationResult) (rs : List ExecutionRecord)
    (h : IsExclusive s rs) where
  settle-IsExclusive :
      (id : String) (patch : Patch) → IsExclusive (update_if_status id submitted patch s).0 rs
  settle-IsExclusive id patch = update_if_status-IsExclusive id submitted patch s rs (λ e. cc) h

  apply_status-IsExclusive :
      (a : TransactionStatus) (id : String) → IsExclusive (apply_status a id now (s, c)).0 rs
  apply_status-IsExclusive TransactionStatus.confirmed id =
      subst (λ t. IsExclusive t rs)
        (sym (count_confirmed_store (update_if_status id submitted (confirm_patch now) s) c))
        (settle-IsExclusive id (confirm_patch now))
  apply_status-IsExclusive TransactionStatus.failed id =
      subst (λ t. IsExclusive t rs)
        (sym (count_failed_store (update_if_status id submitted (fail_patch now) s) c))
        (settle-IsExclusive id (fail_patch now))
  apply_status-IsExclusive TransactionStatus.not_found id = h
  apply_status-IsExclusive TransactionStatus.network_error id = h
  apply_status-IsExclusive TransactionStatus.raises id = h

  reconcile_one-IsExclusive :
      (get_status : String → TransactionStatus) (r : ExecutionRecord)
      → IsExclusive (reconcile_one get_status now r (s, c)).0 rs
  unfolding reconcile_one
  reconcile_one-IsExclusive get_status r = elim (Bool-cases (is_given r.tx_hash)) [
    | inl e ↦ rw e (apply_status-IsExclusive (get_status (get_or_else r.tx_hash "")) r.id)
    | inr e ↦ rw e h
  ]

abbrev pub IsExclusiveSystem : System → Type 0
IsExclusiveSystem a = IsExclusive a.store a.running

Step-IsExclusive :
    (cfg : QueueConfig) (a b : System) → Step cfg a b → IsExclusiveSystem a → IsExclusiveSystem b
Step-IsExclusive cfg a b (enqueued r fresh es er) h =
    rw (es, er) (enqueue-IsExclusive r a.store a.running fresh h)
Step-IsExclusive cfg a b (started r now won es er) h =
    rw (es, er) (claim-IsExclusive r now a.store a.running won h)
Step-IsExclusive cfg a b (ended r now ex p es) h =
    rw es (finish-IsExclusive cfg now r ex a.store p h)
Step-IsExclusive cfg a b (retried pre_check existing id now may es er) h =
    rw (es, er)
      (retry_from-IsExclusive existing id now a.store a.running (may_retry-calm existing may) h
        pre_check)
Step-IsExclusive cfg a b (withdrawn existing id now is_queued es er) h =
    rw (es, er) (cancel_from-IsExclusive existing id now a.store a.running (λ e. cc) h)
Step-IsExclusive cfg a b (settled get_status r now c es er) h =
    rw (es, er) (reconcile_one-IsExclusive now a.store c a.running h get_status r)
Step-IsExclusive cfg a b (restarted now es er) h = rw er tt

-- In every history from an exclusive state, in which workers claim by copies of any age, runs end
-- in any way, failed and dead records are retried, queued ones are cancelled, answers are settled
-- and the process restarts: the records that are being run are pairwise different, and each is
-- stored as executing.
pub Reach-IsExclusive :
    (cfg : QueueConfig) (a b : System) → Reach cfg a b → IsExclusiveSystem a → IsExclusiveSystem b
Reach-IsExclusive cfg a b start h = h
Reach-IsExclusive cfg a b (step {b = m} r st) h =
    Step-IsExclusive cfg m b st (Reach-IsExclusive cfg a m r h)
