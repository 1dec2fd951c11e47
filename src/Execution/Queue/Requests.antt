-- ===== src/Execution/Queue/Requests.antt =====
-- What a user's `retry` and `cancel` do.
use evergent.Base.{
  ℕ, ◌<◌, ◌≡◌, ◌≢◌, refl, ◌∙◌, ◌⊎◌, inl, inr, true, false, Option, none, some, String, arith,
  Bool-cases, Option-cases, get_or_else, leb,
}
use evergent.Base.Text.{is_given}
use evergent.Base.StringMap.{get, set, get-set_self}
use evergent.Execution.{queued, executing, failed, dead_letter, ExecutionRecord}
use evergent.Execution.Store.{Store, patched}
use evergent.Execution.Store.Laws.{update_if_status-won, update_if_status-cases}
use evergent.Execution.Queue.{PreCheckResult, found, not_found, network_error, raises}
use evergent.Execution.Queue.Manual.{
  retry_queued, retry, retry_from, may_retry, requeue, requeue_patch, by_answer, cancelled,
  cancel_invalid_state, cancel_not_found, cancel, cancel_patch, may_cancel,
}

requeue-queued :
    (existing x : ExecutionRecord) (id : String) (now : ℕ) (s : Store)
    → (requeue existing id now s).1 ≡ retry_queued x
    → (e : ExecutionRecord) × (get id s ≡ some e)
      × (x ≡ patched (requeue_patch now) e)
      × ((requeue existing id now s).0 ≡ set id x s)
requeue-queued existing x id now s h =
    elim (update_if_status-cases id existing.status (requeue_patch now) s) [
      | inl (e, at, same, eq) ↦
          let value : x ≡ patched (requeue_patch now) e = ground (arith, eq, h) in
          (e, at, value, rw eq (rw value refl))
      | inr eq ↦ absurd (ground (arith, eq, h))
    ]

by_answer-queued :
    (a : PreCheckResult) (existing x : ExecutionRecord) (id : String) (now : ℕ) (s : Store)
    → (by_answer a existing id now s).1 ≡ retry_queued x
    → (a ≡ not_found)
      × ((by_answer a existing id now s).0 ≡ (requeue existing id now s).0)
      × ((requeue existing id now s).1 ≡ retry_queued x)
by_answer-queued not_found existing x id now s h = (refl, refl, h)
by_answer-queued found existing x id now s h = cc
by_answer-queued network_error existing x id now s h = cc
by_answer-queued raises existing x id now s h = cc

-- The answer of the pre-check for a record whose hash was submitted, where one is configured.
abbrev pub IsCleared : Option (String → PreCheckResult) → ExecutionRecord → Type 0
IsCleared none e = Unit
IsCleared (some f) e =
    (is_given e.submitted_hash ≡ false) ⊎ (f (get_or_else e.submitted_hash "") ≡ not_found)

retry_from-queued :
    (pre_check : Option (String → PreCheckResult)) (existing x : ExecutionRecord) (id : String)
    (now : ℕ) (s : Store)
    → (retry_from pre_check existing id now s).1 ≡ retry_queued x
    → IsCleared pre_check existing
      × ((retry_from pre_check existing id now s).0 ≡ (requeue existing id now s).0)
      × ((requeue existing id now s).1 ≡ retry_queued x)
unfolding retry_from
retry_from-queued none existing x id now s h = (tt, refl, h)
retry_from-queued (some f) existing x id now s h =
    elim (Bool-cases (is_given existing.submitted_hash)) [
      | inr fresh ↦ (inl fresh, rw fresh refl, rw fresh at h)
      | inl sent ↦
          let (clear, store, reply) =
            by_answer-queued (f (get_or_else existing.submitted_hash "")) existing x id now s
              (rw sent at h) in
          (inr clear, rw sent store, reply)
    ]

-- If `retry` answers that a record is queued, then the record had failed or was a dead letter, its
-- attempts were below the limit, and if a hash of it had been submitted and a pre-check is
-- configured, the pre-check said that the transaction is not found. The record is then stored as
-- queued with its attempts kept and no retry time.
pub retry-queued :
    (pre_check : Option (String → PreCheckResult)) (id : String) (limit now : ℕ) (s : Store)
    (x : ExecutionRecord)
    → (retry pre_check id limit now s).1 ≡ retry_queued x
    → (e : ExecutionRecord) × (get id s ≡ some e)
      × ((e.status ≡ failed) ⊎ (e.status ≡ dead_letter))
      × (e.attempt < limit)
      × IsCleared pre_check e
      × (get id (retry pre_check id limit now s).0 ≡ some x)
      × (x.status ≡ queued)
      × (x.attempt ≡ e.attempt)
      × (x.next_retry_at ≡ none)
unfolding retry
retry-queued pre_check id limit now s x h = elim (Option-cases (get id s)) [
  | inl gone ↦ let impossible = (rw (gone, retry) at h) in cc
  | inr (e, at) ↦ elim (Bool-cases (may_retry e)) [
    | inr other ↦ let impossible = (rw other at (rw (at, retry) at h)) in cc
    | inl may ↦ elim (Bool-cases (leb limit e.attempt)) [
      | inl many ↦ let impossible = (rw many at (rw may at (rw (at, retry) at h))) in cc
      | inr few ↦
          let answer = (rw few at (rw may at (rw (at, retry) at h))) in
          let (clear, store, reply) = retry_from-queued pre_check e x id now s answer in
          let (y, at_y, value, written) = requeue-queued e x id now s reply in
          let same : e ≡ y = ground (arith, at, at_y) in
          (
            e,
            at,
            ground (arith, may),
            ground (arith, few),
            clear,
            rw (at, retry) (rw may (rw few (rw (store ∙ written) (get-set_self id x s)))),
            rw value refl,
            rw (value, same) refl,
            rw value refl,
          )
    ]
  ]
]

-- A record as a cancellation leaves it.
abbrev pub cancelled_at : ℕ → ExecutionRecord → ExecutionRecord
cancelled_at now e = record e {
  status = dead_letter;
  next_retry_at = none;
  started_at = none;
  completed_at = some now;
  error = some "cancelled by user";
  updated_at = now;
}

may_cancel-true :
    (e : ExecutionRecord) → may_cancel e ≡ true → (e.status ≡ queued) ⊎ (e.status ≡ executing)
may_cancel-true e h = ground arith

may_cancel-false :
    (e : ExecutionRecord) → may_cancel e ≡ false → (e.status ≢ queued) × (e.status ≢ executing)
may_cancel-false e h = ((λ q. ground arith), (λ x. ground arith))

-- A cancellation of a stored record.
pub cancel_found :
    (id : String) (now : ℕ) (s : Store) (e : ExecutionRecord)
    → get id s ≡ some e
    → ((may_cancel e ≡ true)
        × (cancel id now s ≡ (set id (cancelled_at now e) s, cancelled (cancelled_at now e))))
      ⊎ ((may_cancel e ≡ false) × (cancel id now s ≡ (s, cancel_invalid_state)))
unfolding cancel
cancel_found id now s e at = elim (Bool-cases (may_cancel e)) [
  | inr other ↦ inr (other, rw (at, cancel) (rw other refl))
  | inl may ↦ inl (
    may,
    rw (at, cancel)
        (rw may (rw (update_if_status-won id e.status (cancel_patch now) s e at refl) refl)),
  )
]

-- `cancel` refuses a missing record; it makes a queued or executing one a dead letter with no retry
-- time and no start time, completed now with the error "cancelled by user", its attempts and its other
-- fields kept, and answers with it; and it refuses a record in any other status. A refusal leaves the
-- store as it is.
pub cancel_lem :
    (id : String) (now : ℕ) (s : Store)
    → ((get id s ≡ none) × (cancel id now s ≡ (s, cancel_not_found)))
      ⊎ ((e : ExecutionRecord) × (get id s ≡ some e)
          × ((((e.status ≡ queued) ⊎ (e.status ≡ executing))
                × (cancel id now s
                    ≡ (set id (cancelled_at now e) s, cancelled (cancelled_at now e))))
              ⊎ ((e.status ≢ queued)
                  × (e.status ≢ executing)
                  × (cancel id now s ≡ (s, cancel_invalid_state)))))
unfolding cancel
cancel_lem id now s = elim (Option-cases (get id s)) [
  | inl gone ↦ inl (gone, rw (gone, cancel) refl)
  | inr (e, at) ↦ inr (
    e,
    at,
    elim (cancel_found id now s e at) [
      | inl (may, done) ↦ inl (may_cancel-true e may, done)
      | inr (other, refused) ↦
          let (not_queued, not_executing) = may_cancel-false e other in
          inr (not_queued, not_executing, refused)
    ],
  )
]
