-- ===== src/Execution/Queue/Outcomes.antt =====
-- How a run ends: what `fail` and `complete` leave in the store, and the bounds on retries.
use evergent.Base.{
  ℕ, ◌+◌, ◌<◌, ◌≡◌, refl, ◌∙◌, ◌≢◌, ◌⊎◌, inl, inr, true, false, Option, none, some, String, arith,
  Bool-cases, Option-cases, get_or_else, leb, eq_iff,
}
use evergent.Base.Text.{is_given}
use evergent.Base.StringMap.{get}
use evergent.Execution.{failed, dead_letter, ErrorClass, transient, permanent, ExecutionRecord}
use evergent.Execution.Retry.{
  RetryPolicy, Thrown, classify_error, compute_next_retry_at, RetryDecision, should_retry_now,
  no_retry,
}
use evergent.Execution.Store.{Store, patched}
use evergent.Execution.Store.Laws.{get-update_self, get-update_ne}
use evergent.Execution.Queue.{
  QueueConfig, ExecutionResult, Executed, returns, throws, PreCheckResult, found, not_found,
  network_error, raises, retry_decision, attempt_patch, decision_patch, message_of, fail, complete,
  finish, success_patch, reported, decide_by_answer,
}

-- A decision to retry: below the limit, for a transient error, at the backoff's time.
abbrev pub IsJustified : RetryDecision → ℕ → ErrorClass → RetryPolicy → ℕ → Type 0
IsJustified d attempt class policy now =
    ((d.should_retry ≡ true)
      × (attempt < policy.max_retries)
      × (class ≡ transient)
      × (d.next_retry_at ≡ some (compute_next_retry_at attempt policy now)))
    ⊎ (d.should_retry ≡ false)

should_retry_now-IsJustified :
    (attempt : ℕ) (class : ErrorClass) (policy : RetryPolicy) (now : ℕ)
    → IsJustified (should_retry_now attempt class policy now) attempt class policy now
unfolding should_retry_now
should_retry_now-IsJustified attempt permanent policy now = inr refl
should_retry_now-IsJustified attempt transient policy now =
    elim (Bool-cases (leb policy.max_retries attempt)) [
      | inl e ↦ inr (rw e refl)
      | inr e ↦ inl (rw e refl, ground arith, refl, rw e refl)
    ]

decide_by_answer-IsJustified :
    (a : PreCheckResult) (attempt : ℕ) (class : ErrorClass) (policy : RetryPolicy) (now : ℕ)
    → IsJustified (decide_by_answer a attempt class policy now) attempt class policy now
decide_by_answer-IsJustified found attempt class policy now = inr refl
decide_by_answer-IsJustified network_error attempt class policy now = inr refl
decide_by_answer-IsJustified raises attempt class policy now = inr refl
decide_by_answer-IsJustified not_found attempt permanent policy now = inr refl
decide_by_answer-IsJustified not_found attempt transient policy now =
    elim (Bool-cases (leb policy.max_retries attempt)) [
      | inl e ↦ inr (rw e refl)
      | inr e ↦ inl (rw e refl, ground arith, refl, rw e refl)
    ]

retry_decision-IsJustified :
    (cfg : QueueConfig) (r : ExecutionRecord) (attempt : ℕ) (class : ErrorClass) (now : ℕ)
    → IsJustified (retry_decision cfg r attempt class now) attempt class cfg.retry_policy now
unfolding retry_decision
retry_decision-IsJustified cfg r attempt class now = elim (Option-cases cfg.pre_check) [
  | inl e ↦ rw (e, retry_decision) (should_retry_now-IsJustified attempt class cfg.retry_policy now)
  | inr (f, e) ↦ elim (Bool-cases (is_given r.submitted_hash)) [
    | inl g ↦
        rw (e, retry_decision)
          (rw g (
            decide_by_answer-IsJustified (f (get_or_else r.submitted_hash "")) attempt class
              cfg.retry_policy now))
    | inr g ↦
        rw (e, retry_decision)
          (rw g (should_retry_now-IsJustified attempt class cfg.retry_policy now))
  ]
]

-- What `fail` writes under the record's id.
pub get-fail :
    (cfg : QueueConfig) (now : ℕ) (r : ExecutionRecord) (thrown : Thrown)
    (given : Option ErrorClass) (s : Store) (e : ExecutionRecord)
    → get r.id s ≡ some e
    → let class = get_or_else given (classify_error thrown) in
      let attempt = r.attempt + 1 in
      get r.id (fail cfg now r thrown given s)
      ≡ some (
          patched
            (decision_patch (retry_decision cfg r attempt class now) now)
            (patched (attempt_patch attempt (message_of thrown) class now) e))
unfolding fail
get-fail cfg now r thrown given s e h = simp (get-update_self, h)

pub get-fail_ne :
    (cfg : QueueConfig) (now : ℕ) (r : ExecutionRecord) (thrown : Thrown)
    (given : Option ErrorClass) (s : Store) (j : String)
    → r.id ≢ j
    → get j (fail cfg now r thrown given s) ≡ get j s
unfolding fail
get-fail_ne cfg now r thrown given s j h = get-update_ne j r.id _ _ h ∙ get-update_ne j r.id _ s h

-- A failed run counts one attempt. The record is then scheduled again only for a transient error
-- with fewer attempts than the limit, at the time of the backoff; otherwise it is a dead letter
-- with no retry time.
pub fail-bounded :
    (cfg : QueueConfig) (now : ℕ) (r : ExecutionRecord) (thrown : Thrown)
    (given : Option ErrorClass) (s : Store) (e : ExecutionRecord)
    → get r.id s ≡ some e
    → (x : ExecutionRecord) × (get r.id (fail cfg now r thrown given s) ≡ some x)
      × (x.attempt ≡ r.attempt + 1)
      × (((x.status ≡ failed)
            × (x.attempt < cfg.retry_policy.max_retries)
            × (get_or_else given (classify_error thrown) ≡ transient)
            × (x.next_retry_at ≡ some (compute_next_retry_at x.attempt cfg.retry_policy now)))
          ⊎ ((x.status ≡ dead_letter) × (x.next_retry_at ≡ none) × (x.completed_at ≡ some now)))
fail-bounded cfg now r thrown given s e h =
    let class = get_or_else given (classify_error thrown) in
    let attempt = r.attempt + 1 in
    let d = retry_decision cfg r attempt class now in
    (
      patched (decision_patch d now)
          (patched (attempt_patch attempt (message_of thrown) class now) e),
      get-fail cfg now r thrown given s e h,
      ground arith,
      elim (retry_decision-IsJustified cfg r attempt class now) [
        | inl (yes_retry, below, is_transient, at) ↦
            inl (rw yes_retry refl, rw yes_retry below, is_transient, rw yes_retry at)
        | inr no_more ↦ inr (rw no_more refl, rw no_more refl, rw no_more refl)
      ],
    )

decide_by_answer-blocked :
    (a : PreCheckResult) (attempt : ℕ) (class : ErrorClass) (policy : RetryPolicy) (now : ℕ)
    → a ≢ not_found
    → decide_by_answer a attempt class policy now ≡ no_retry
decide_by_answer-blocked found attempt class policy now h = refl
decide_by_answer-blocked network_error attempt class policy now h = refl
decide_by_answer-blocked raises attempt class policy now h = refl
decide_by_answer-blocked not_found attempt class policy now h = absurd (h refl)

retry_decision-blocked :
    (cfg : QueueConfig) (r : ExecutionRecord) (attempt : ℕ) (class : ErrorClass) (now : ℕ)
    (f : String → PreCheckResult) (hash : String)
    → cfg.pre_check ≡ some f
    → r.submitted_hash ≡ some hash
    → hash ≢ ""
    → f hash ≢ not_found
    → retry_decision cfg r attempt class now ≡ no_retry
unfolding retry_decision
retry_decision-blocked cfg r attempt class now f hash p k n a =
    let given : is_given r.submitted_hash ≡ true = rw k (ground (arith, eq_iff hash "")) in
    let same : get_or_else r.submitted_hash "" ≡ hash = rw k refl in
    rw (p, retry_decision)
      (rw given (rw same (decide_by_answer-blocked (f hash) attempt class cfg.retry_policy now a)))

-- Where a hash was submitted before and a pre-check is configured, a failed run is retried only if
-- the pre-check says that the transaction is not found: any other answer, or its failure, makes the
-- record a dead letter.
pub fail-pre_check :
    (cfg : QueueConfig) (now : ℕ) (r : ExecutionRecord) (thrown : Thrown)
    (given : Option ErrorClass) (s : Store) (e : ExecutionRecord) (f : String → PreCheckResult)
    (hash : String)
    → get r.id s ≡ some e
    → cfg.pre_check ≡ some f
    → r.submitted_hash ≡ some hash
    → hash ≢ ""
    → f hash ≢ not_found
    → (x : ExecutionRecord) × (get r.id (fail cfg now r thrown given s) ≡ some x)
      × (x.status ≡ dead_letter)
      × (x.attempt ≡ r.attempt + 1)
fail-pre_check cfg now r thrown given s e f hash h p k n a =
    let class = get_or_else given (classify_error thrown) in
    let attempt = r.attempt + 1 in
    let d = retry_decision cfg r attempt class now in
    let blocked = retry_decision-blocked cfg r attempt class now f hash p k n a in
    (
      patched (decision_patch d now)
          (patched (attempt_patch attempt (message_of thrown) class now) e),
      get-fail cfg now r thrown given s e h,
      rw blocked refl,
      rw blocked refl,
    )

-- A successful run leaves the status that the executor gave, its transaction hash, and the hash
-- that was submitted, with no error.
pub get-complete_success :
    (cfg : QueueConfig) (now : ℕ) (r : ExecutionRecord) (result : ExecutionResult) (s : Store)
    (e : ExecutionRecord)
    → result.success ≡ true
    → get r.id s ≡ some e
    → get r.id (complete cfg now r result s) ≡ some (patched (success_patch r result now) e)
unfolding complete
get-complete_success cfg now r result s e ok h = rw ok (simp (get-update_self, h))

-- The runs that fail: the executor throws, or reports no success.
abbrev pub IsFailure : Executed → Type 0
IsFailure (returns result) = result.success ≡ false
IsFailure (throws thrown) = Unit

pub finish_failure :
    (cfg : QueueConfig) (now : ℕ) (r : ExecutionRecord) (ex : Executed) (s : Store)
    → IsFailure ex
    → (thrown : Thrown) × (given : Option ErrorClass) × (finish cfg now r ex s
        ≡ fail cfg now r thrown given s)
unfolding finish complete
finish_failure cfg now r (returns result) s h =
    (reported result.error, result.error_class, rw h refl)
finish_failure cfg now r (throws thrown) s h = (thrown, some (classify_error thrown), refl)

-- The end of a run touches no other record.
pub get-finish_ne :
    (cfg : QueueConfig) (now : ℕ) (r : ExecutionRecord) (ex : Executed) (s : Store) (j : String)
    → r.id ≢ j
    → get j (finish cfg now r ex s) ≡ get j s
unfolding finish complete
get-finish_ne cfg now r (throws thrown) s j h =
    get-fail_ne cfg now r thrown (some (classify_error thrown)) s j h
get-finish_ne cfg now r (returns result) s j h = elim (Bool-cases result.success) [
  | inl e ↦ rw e (get-update_ne j r.id (success_patch r result now) s h)
  | inr e ↦ rw e (get-fail_ne cfg now r (reported result.error) result.error_class s j h)
]
