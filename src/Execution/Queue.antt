-- ===== src/Execution/Queue.antt =====
-- apps/api/src/execution-queue.ts: `ExecutionQueue`. The pipeline executor and the pre-check are
-- given from outside: a run of the executor is a value `Executed`, and the pre-check is a function.
-- All clock readings of one call are one argument `now`. A method that waits between its reading
-- and its conditional write is split there, so that the write can meet another store.
pub mod Cancellation
pub mod Manual
pub mod Outcomes
pub mod Turns
pub mod Passes
pub mod Requests
use evergent.Base.{
  ℕ, suc, ◌+◌, ◌-◌, Bool, true, false, ◌&&◌, ◌||◌, List, [], ◌∷◌, Option, none, some, String,
  if◌then◌else◌, leb, is_some, or_else, get_or_else,
}
use evergent.Base.Text.{is_given}
use evergent.Base.StringMap.{get}
use evergent.Execution.{
  ExecutionStatus, queued, executing, submitted, failed, dead_letter, ErrorClass, transient,
  permanent, ExecutionRecord, is_status,
}
use evergent.Execution.Retry.{
  RetryPolicy, Thrown, error_object, other_value, classify_error, compute_next_retry_at,
  RetryDecision, no_retry, should_retry_now,
}
use evergent.Execution.Store.{Store, Patch, record_execution, update, update_if_status, list_due}

-- `status` is read on success only, where the source casts it to an `ExecutionStatus`.
pub record ExecutionResult : Type 0 where
  pub success : Bool
  pub status : ExecutionStatus
  pub error : Option String
  pub error_class : Option ErrorClass
  pub tx_hash : Option String
  pub submitted_hash : Option String

pub data Executed : Type 0 where
  returns : ExecutionResult → Executed
  throws : Thrown → Executed

-- `raises`: the pre-check itself throws.
pub data PreCheckResult : Type 0 where
  found not_found network_error raises : PreCheckResult

pub record QueueConfig : Type 0 where
  pub concurrency : ℕ
  pub retry_policy : RetryPolicy
  pub pre_check : Option (String → PreCheckResult)

unfoldable pub enqueue : ExecutionRecord → Store → Store
unfolding record_execution
enqueue r s = record_execution r s

abbrev pub claim_patch : ℕ → Patch
claim_patch now e = record e { status = executing; started_at = some now; updated_at = now }

-- The record is the worker's own copy, from when the due records were listed.
unfoldable pub claim : ExecutionRecord → ℕ → Store → Store × Bool
claim r now s =
    if is_status r.status queued || is_status r.status failed
    then (let (s', updated) = update_if_status r.id r.status (claim_patch now) s in
        (s', is_some updated))
    else (s, false)

abbrev pub message_of : Thrown → String
message_of (error_object message) = message
message_of (other_value text) = text

-- The answer of the pre-check decides.
abbrev pub decide_by_answer : PreCheckResult → ℕ → ErrorClass → RetryPolicy → ℕ → RetryDecision
decide_by_answer not_found attempt permanent policy now = no_retry
decide_by_answer not_found attempt transient policy now =
    if leb policy.max_retries attempt then no_retry else record {
      should_retry = true;
      next_retry_at = some (compute_next_retry_at attempt policy now);
    }
decide_by_answer found attempt class policy now = no_retry
decide_by_answer network_error attempt class policy now = no_retry
decide_by_answer raises attempt class policy now = no_retry

-- The decision of `fail`, with that of `evaluateRetryWithPreCheck`.
unfoldable pub retry_decision : QueueConfig → ExecutionRecord → ℕ → ErrorClass → ℕ → RetryDecision
retry_decision cfg r attempt class now = elim cfg.pre_check [
  | none ↦ should_retry_now attempt class cfg.retry_policy now
  | some pre_check ↦
      if is_given r.submitted_hash
      then decide_by_answer (pre_check (get_or_else r.submitted_hash "")) attempt class
          cfg.retry_policy now
      else should_retry_now attempt class cfg.retry_policy now
]

abbrev pub attempt_patch : ℕ → String → ErrorClass → ℕ → Patch
attempt_patch attempt message class now e = record e {
  attempt = attempt;
  error = some message;
  error_class = some class;
  updated_at = now;
}

abbrev pub decision_patch : RetryDecision → ℕ → Patch
decision_patch d now e =
    if d.should_retry
    then record e { status = failed; next_retry_at = d.next_retry_at }
    else record e { status = dead_letter; next_retry_at = none; completed_at = some now }

unfoldable pub fail : QueueConfig → ℕ → ExecutionRecord → Thrown → Option ErrorClass → Store → Store
fail cfg now r thrown given s =
    let class = get_or_else given (classify_error thrown) in
    let attempt = r.attempt + 1 in
    let counted = (update r.id (attempt_patch attempt (message_of thrown) class now) s).0 in
    (update r.id (decision_patch (retry_decision cfg r attempt class now) now) counted).0

abbrev pub success_patch : ExecutionRecord → ExecutionResult → ℕ → Patch
success_patch r result now e = record e {
  status = result.status;
  tx_hash = result.tx_hash;
  submitted_hash = or_else result.submitted_hash r.submitted_hash;
  error = none;
  completed_at = some now;
  updated_at = now;
}

-- `result.error ?? new Error("Unknown error")`
abbrev pub reported : Option String → Thrown
reported none = error_object "Unknown error"
reported (some text) = other_value text

unfoldable pub complete : QueueConfig → ℕ → ExecutionRecord → ExecutionResult → Store → Store
unfolding fail
complete cfg now r result s =
    if result.success
    then (update r.id (success_patch r result now) s).0
    else fail cfg now r (reported result.error) result.error_class s

-- The end of a run: `complete`, or `fail` where the executor threw.
unfoldable pub finish : QueueConfig → ℕ → ExecutionRecord → Executed → Store → Store
unfolding complete fail
finish cfg now r (returns result) s = complete cfg now r result s
finish cfg now r (throws thrown) s = fail cfg now r thrown (some (classify_error thrown)) s

-- The queue's state: its store, and the number of runs under way.
pub record Queue : Type 0 where
  pub store : Store
  pub active_count : ℕ

unfoldable pub run_execution :
    QueueConfig → (ExecutionRecord → Executed) → ℕ → ExecutionRecord → Queue → Queue × Bool
unfolding claim finish
run_execution cfg execute now r q =
    let (s, claimed) = claim r now q.store in
    if claimed
    then (record q { store = finish cfg now r (execute r) s }, true)
    else (record q { store = s }, false)

-- The loop of `processDue` over the due records; it counts the runs that it started.
unfoldable pub process_records :
    QueueConfig → (ExecutionRecord → Executed) → ℕ → List ExecutionRecord → Queue → Queue × ℕ
unfolding run_execution
process_records cfg execute now [] q = (q, 0)
process_records cfg execute now (r ∷ due) q =
    let (q', started) =
      if is_status r.status executing then (q, false) else run_execution cfg execute now r q in
    let rest = process_records cfg execute now due q' in
    if leb cfg.concurrency q.active_count
    then (q, 0)
    else (rest.0, (if started then suc rest.1 else rest.1))

unfoldable pub process_due : QueueConfig → (ExecutionRecord → Executed) → ℕ → Queue → Queue × ℕ
unfolding process_records list_due
process_due cfg execute now q = process_records cfg execute now (list_due now 50 q.store) q
