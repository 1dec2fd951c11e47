-- ===== src/Execution/Queue/Cancellation.antt =====
-- What becomes of a cancellation in apps/api/src/execution-queue.ts while the record is executed.
use evergent.Base.{
  ℕ, ◌+◌, ◌≡◌, refl, inl, inr, true, false, Option, some, arith, Bool-cases, get_or_else,
}
use evergent.Base.StringMap.{get, set, get-set_self}
use evergent.Execution.{executing, ErrorClass, ExecutionRecord}
use evergent.Execution.Retry.{RetryDecision, Thrown, classify_error}
use evergent.Execution.Store.{Store, patched}
use evergent.Execution.Queue.{
  QueueConfig, ExecutionResult, Executed, returns, throws, finish, complete, decision_patch,
  attempt_patch, message_of, success_patch, retry_decision, reported,
}
use evergent.Execution.Queue.Outcomes.{get-fail, get-complete_success}
use evergent.Execution.Queue.Manual.{cancelled, cancel, cancel_patch, may_cancel}
use evergent.Execution.Queue.Requests.{cancel_found}

-- The records agree on the status, the attempts and the error.
abbrev pub LooksLike : ExecutionRecord → ExecutionRecord → Type 0
LooksLike x y = (x.status ≡ y.status) × (x.attempt ≡ y.attempt) × (x.error ≡ y.error)

decision_patch-LooksLike :
    (d : RetryDecision) (now : ℕ) (x y : ExecutionRecord)
    → x.attempt ≡ y.attempt
    → x.error ≡ y.error
    → LooksLike (patched (decision_patch d now) x) (patched (decision_patch d now) y)
decision_patch-LooksLike d now x y counted said = elim (Bool-cases d.should_retry) [
  | inl e ↦ (rw e refl, rw e counted, rw e said)
  | inr e ↦ (rw e refl, rw e counted, rw e said)
]

-- What `fail` makes of a stored record.
abbrev failure_of :
    QueueConfig
    → ℕ
    → ExecutionRecord
    → Thrown
    → Option ErrorClass
    → ExecutionRecord
    → ExecutionRecord
failure_of cfg now r thrown given e =
    let class = get_or_else given (classify_error thrown) in
    let attempt = r.attempt + 1 in
    patched (decision_patch (retry_decision cfg r attempt class now) now)
      (patched (attempt_patch attempt (message_of thrown) class now) e)

failure_of-LooksLike :
    (cfg : QueueConfig) (now : ℕ) (r : ExecutionRecord) (thrown : Thrown)
    (given : Option ErrorClass) (e f : ExecutionRecord)
    → LooksLike (failure_of cfg now r thrown given e) (failure_of cfg now r thrown given f)
failure_of-LooksLike cfg now r thrown given e f =
    let class = get_or_else given (classify_error thrown) in
    let attempt = r.attempt + 1 in
    let count = attempt_patch attempt (message_of thrown) class now in
    decision_patch-LooksLike (retry_decision cfg r attempt class now) now (patched count e)
      (patched count f) refl refl

abbrev pub EndsAlike : QueueConfig → ℕ → ExecutionRecord → Executed → Store → Store → Type 0
EndsAlike cfg now r ex s t =
    (x : ExecutionRecord) × (y : ExecutionRecord) × (get r.id (finish cfg now r ex s) ≡ some x)
    × (get r.id (finish cfg now r ex t) ≡ some y)
    × LooksLike x y

complete_failure-EndsAlike :
    (cfg : QueueConfig) (now : ℕ) (r : ExecutionRecord) (result : ExecutionResult) (s t : Store)
    (e f : ExecutionRecord)
    → result.success ≡ false
    → get r.id s ≡ some e
    → get r.id t ≡ some f
    → EndsAlike cfg now r (returns result) s t
unfolding finish complete
complete_failure-EndsAlike cfg now r result s t e f bad at_e at_f =
    let thrown = reported result.error in
    let given = result.error_class in
    (
      failure_of cfg now r thrown given e,
      failure_of cfg now r thrown given f,
      rw bad (get-fail cfg now r thrown given s e at_e),
      rw bad (get-fail cfg now r thrown given t f at_f),
      failure_of-LooksLike cfg now r thrown given e f,
    )

-- What the end of a run leaves does not depend on the status and the error that it finds.
finish-EndsAlike :
    (cfg : QueueConfig) (now : ℕ) (r : ExecutionRecord) (ex : Executed) (s t : Store)
    (e f : ExecutionRecord)
    → get r.id s ≡ some e
    → get r.id t ≡ some f
    → e.attempt ≡ f.attempt
    → EndsAlike cfg now r ex s t
unfolding finish
finish-EndsAlike cfg now r (throws thrown) s t e f at_e at_f same =
    let given = some (classify_error thrown) in
    (
      failure_of cfg now r thrown given e,
      failure_of cfg now r thrown given f,
      get-fail cfg now r thrown given s e at_e,
      get-fail cfg now r thrown given t f at_f,
      failure_of-LooksLike cfg now r thrown given e f,
    )
finish-EndsAlike cfg now r (returns result) s t e f at_e at_f same =
    elim (Bool-cases result.success) [
      | inl ok ↦ (
        patched (success_patch r result now) e,
        patched (success_patch r result now) f,
        get-complete_success cfg now r result s e ok at_e,
        get-complete_success cfg now r result t f ok at_f,
        (refl, same, refl),
      )
      | inr bad ↦ complete_failure-EndsAlike cfg now r result s t e f bad at_e at_f
    ]

-- Cancelling a record while it is executing has no effect on how its run ends: the run leaves the
-- status, the attempts and the error that it would have left without the cancellation.
pub cancel_lost :
    (cfg : QueueConfig) (now later : ℕ) (r e : ExecutionRecord) (ex : Executed) (s : Store)
    → get r.id s ≡ some e
    → e.status ≡ executing
    → ((cancel r.id now s).1 ≡ cancelled (patched (cancel_patch now) e))
      × EndsAlike cfg later r ex (cancel r.id now s).0 s
cancel_lost cfg now later r e ex s at runs =
    let may : may_cancel e ≡ true = ground (arith, runs) in
    let dead = patched (cancel_patch now) e in
    let done : cancel r.id now s ≡ (set r.id dead s, cancelled dead) =
      elim (cancel_found r.id now s e at) [ inl (_, eq) ↦ eq | inr (no_way, _) ↦ cc ] in
    (
      rw done refl,
      rw done (
          finish-EndsAlike cfg later r ex (set r.id dead s) s dead e (get-set_self r.id dead s) at
            refl),
    )
