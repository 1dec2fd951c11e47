-- ===== src/Execution/Queue/Manual.antt =====
-- `retry` and `cancel` of apps/api/src/execution-queue.ts. Each reads the record, decides, and
-- writes conditionally on the status that it read; `retry_from` and `cancel_from` are what follows
-- the reading, on the store that they meet.
use evergent.Base.{ℕ, Bool, ◌||◌, Option, none, some, String, if◌then◌else◌, leb, get_or_else}
use evergent.Base.Text.{is_given}
use evergent.Base.StringMap.{get}
use evergent.Execution.{
  queued, executing, submitted, failed, dead_letter, ExecutionRecord, is_status,
}
use evergent.Execution.Store.{Store, Patch, update_if_status}
use evergent.Execution.Queue.{PreCheckResult, found, not_found, network_error, raises}

-- `retry_raised`: the pre-check threw, and the call with it.
pub data RetryReply : Type 0 where
  retry_not_found retry_invalid_state max_retries_reached retry_conflict retry_raised : RetryReply
  retry_submitted : Option ExecutionRecord → RetryReply
  ambiguous_submission retry_queued : ExecutionRecord → RetryReply

abbrev pub found_patch : Option String → ℕ → Patch
found_patch hash now e = record e {
  status = submitted;
  tx_hash = hash;
  error = none;
  completed_at = some now;
  updated_at = now;
}

abbrev pub requeue_patch : ℕ → Patch
requeue_patch now e = record e {
  status = queued;
  next_retry_at = none;
  error = none;
  started_at = none;
  updated_at = now;
}

abbrev pub requeued : Store × Option ExecutionRecord → Store × RetryReply
requeued (s, none) = (s, retry_conflict)
requeued (s, some r) = (s, retry_queued r)

abbrev pub requeue : ExecutionRecord → String → ℕ → Store → Store × RetryReply
requeue existing id now s = requeued (update_if_status id existing.status (requeue_patch now) s)

abbrev pub by_answer : PreCheckResult → ExecutionRecord → String → ℕ → Store → Store × RetryReply
by_answer found existing id now s =
    let s' = (update_if_status id existing.status (found_patch existing.submitted_hash now) s).0 in
    (s', retry_submitted (get id s'))
by_answer network_error existing id now s = (s, ambiguous_submission existing)
by_answer raises existing id now s = (s, retry_raised)
by_answer not_found existing id now s = requeue existing id now s

-- The part of `retry` behind the pre-check, which was asked about the record `existing`.
unfoldable pub retry_from :
    Option (String → PreCheckResult) → ExecutionRecord → String → ℕ → Store → Store × RetryReply
retry_from none existing id now s = requeue existing id now s
retry_from (some pre_check) existing id now s =
    if is_given existing.submitted_hash
    then by_answer (pre_check (get_or_else existing.submitted_hash "")) existing id now s
    else requeue existing id now s

abbrev pub may_retry : ExecutionRecord → Bool
may_retry r = is_status r.status failed || is_status r.status dead_letter

unfoldable pub retry :
    Option (String → PreCheckResult) → String → ℕ → ℕ → Store → Store × RetryReply
unfolding retry_from
retry pre_check id limit now s = elim (get id s) [
  | none ↦ (s, retry_not_found)
  | some existing ↦
      if may_retry existing
      then if leb limit existing.attempt
        then (s, max_retries_reached)
        else retry_from pre_check existing id now s
      else (s, retry_invalid_state)
]

pub data CancelReply : Type 0 where
  cancel_not_found cancel_invalid_state cancel_conflict : CancelReply
  cancelled : ExecutionRecord → CancelReply

abbrev pub cancel_patch : ℕ → Patch
cancel_patch now e = record e {
  status = dead_letter;
  next_retry_at = none;
  started_at = none;
  completed_at = some now;
  error = some "cancelled by user";
  updated_at = now;
}

abbrev pub cancel_reply : Store × Option ExecutionRecord → Store × CancelReply
cancel_reply (s, none) = (s, cancel_conflict)
cancel_reply (s, some r) = (s, cancelled r)

abbrev pub may_cancel : ExecutionRecord → Bool
may_cancel r = is_status r.status queued || is_status r.status executing

unfoldable pub cancel_from : ExecutionRecord → String → ℕ → Store → Store × CancelReply
cancel_from existing id now s =
    cancel_reply (update_if_status id existing.status (cancel_patch now) s)

unfoldable pub cancel : String → ℕ → Store → Store × CancelReply
unfolding cancel_from
cancel id now s = elim (get id s) [
  | none ↦ (s, cancel_not_found)
  | some existing ↦
      if may_cancel existing then cancel_from existing id now s else (s, cancel_invalid_state)
]
