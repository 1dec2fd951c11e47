-- ===== src/Tests/ExecutionTests.antt =====
-- The queue, its workers and the manual calls at concrete records.
use evergent.Base.{
  ℕ, List, ◌+◌, ◌≤◌, ◌<◌, ◌⊎◌, max, String, get_or_else, ◌≡◌, refl, true, false, [], ◌∷◌, none,
  some, arith, ◌≢◌, eq_iff,
}
use evergent.Base.StringMap.{get, set}
use evergent.Execution.{
  queued, executing, submitted, failed, dead_letter, transient, ExecutionRecord,
}
use evergent.Execution.Retry.{
  error_object, classify_error, is_transient_error, compute_next_retry_at, default_retry_policy,
  should_retry_now,
}
use evergent.Execution.Store.{Store, update, update_if_status, patched}
use evergent.Execution.Queue.{retry_decision, Executed, throws, Queue, claim, fail, process_due}
use evergent.Execution.Queue.Outcomes.{fail-bounded}
use evergent.Execution.Queue.Passes.{passes, AreFew, passes-dead_letter}
use evergent.Execution.Queue.Manual.{
  cancel, cancel_patch, cancelled, cancel_invalid_state, cancel_not_found,
}
use evergent.Execution.Queue.Requests.{cancelled_at, cancel_lem}
use evergent.Execution.Queue.Cancellation.{cancel_lost, EndsAlike}
use evergent.Execution.Recovery.{recover}
use evergent.Execution.Recovery.Effect.{recovered, get-recover}
use evergent.Execution.Reconciler.{TransactionStatus, reconcile}
use evergent.Execution.Reconciler.Effect.{reconciled, get-reconcile}
use evergent.Execution.Workers.{System, Reach, start, step, started}
use evergent.Execution.Workers.Mutex.{IsExclusiveSystem, Reach-IsExclusive}
use evergent.Tests.Samples.{execution, plain}

abbrev waiting : Store
waiting = ("e1", execution "e1" queued) ∷ []

abbrev busy : Store
busy = ("e1", execution "e1" executing) ∷ []

abbrev dead : Store
dead = ("e1", execution "e1" dead_letter) ∷ []

abbrev sent : ExecutionRecord
sent = record (execution "e1" executing) { submitted_hash = some "h" }

transient_messages :
    (is_transient_error "NETWORK down" ≡ true) × (is_transient_error "bad intent" ≡ false)
unfolding is_transient_error
transient_messages = (refl, refl)

-- The first retry comes after twice the base delay, since `fail` passes the attempts plus one.
first_retry : compute_next_retry_at 1 default_retry_policy 0 ≡ 10000
unfolding compute_next_retry_at
first_retry = refl

before_claim : System
before_claim = record { store = waiting; running = [] }

after_claim : System
unfolding claim update_if_status get set
after_claim = record {
  store = (claim (execution "e1" queued) 5 waiting).0;
  running = execution "e1" queued ∷ [];
}

claim_run : Reach plain before_claim after_claim
unfolding before_claim after_claim
claim_run = step start (started (execution "e1" queued) 5 refl refl refl)

Reach-IsExclusive_example : IsExclusiveSystem after_claim
unfolding before_claim
Reach-IsExclusive_example = Reach-IsExclusive plain before_claim after_claim claim_run tt

fail-bounded_example :
    (x : ExecutionRecord) × (get "e1"
        (fail plain 7 (execution "e1" executing) (error_object "fetch failed") none busy)
      ≡ some x)
    × (x.attempt ≡ 0 + 1)
    × (((x.status ≡ failed)
          × (x.attempt < plain.retry_policy.max_retries)
          × (get_or_else none (classify_error (error_object "fetch failed")) ≡ transient)
          × (x.next_retry_at ≡ some (compute_next_retry_at x.attempt plain.retry_policy 7)))
        ⊎ ((x.status ≡ dead_letter) × (x.next_retry_at ≡ none) × (x.completed_at ≡ some 7)))
unfolding get
fail-bounded_example =
    fail-bounded plain 7 (execution "e1" executing) (error_object "fetch failed") none busy
      (execution "e1" executing) refl

h_not_empty : ◌≢◌ {A = String} "h" ""
h_not_empty = ground (arith, eq_iff "h" "")

abbrev always_down : ExecutionRecord → Executed
always_down r = throws (error_object "network")

abbrev one_waiting : Queue
one_waiting = record { store = waiting; active_count = 0 }

-- Three passes, a minute and more apart: the limit of the policy.
abbrev pass_times : List ℕ
pass_times = 400007 ∷ 800007 ∷ []

few_due : AreFew plain always_down (7 ∷ pass_times) one_waiting
unfolding process_due get set update_if_status update retry_decision should_retry_now classify_error
    is_transient_error
few_due = (omega arith, (omega arith, (omega arith, tt)))

passes-dead_letter_example :
    (x : ExecutionRecord) × (get "e1" (passes plain always_down (7 ∷ pass_times) one_waiting).store
      ≡ some x)
    × (x.status ≡ dead_letter)
    × (x.attempt ≤ max (0 + 1) plain.retry_policy.max_retries)
unfolding get
passes-dead_letter_example =
    passes-dead_letter plain always_down 7 pass_times (execution "e1" queued) one_waiting (λ x. tt)
      (refl, tt, tt) (omega arith) few_due (omega arith, (omega arith, tt)) refl refl (omega arith)

-- One pass over the due records claims and runs the one that is queued.
process_due_test :
    ((process_due plain always_down 7 one_waiting).1 ≡ 1)
    × ((process_due plain always_down 7 (record { store = busy; active_count = 0 })).1 ≡ 0)
unfolding process_due get set update_if_status
process_due_test = (refl, refl)

retried : ExecutionRecord
retried = record (execution "e1" dead_letter) { status = queued; updated_at = 9 }

cancel_lem_example :
    ((get "e1" busy ≡ none) × (cancel "e1" 9 busy ≡ (busy, cancel_not_found)))
    ⊎ ((e : ExecutionRecord) × (get "e1" busy ≡ some e)
        × ((((e.status ≡ queued) ⊎ (e.status ≡ executing))
              × (cancel "e1" 9 busy
                  ≡ (set "e1" (cancelled_at 9 e) busy, cancelled (cancelled_at 9 e))))
            ⊎ ((e.status ≢ queued)
                × (e.status ≢ executing)
                × (cancel "e1" 9 busy ≡ (busy, cancel_invalid_state)))))
cancel_lem_example = cancel_lem "e1" 9 busy

cancel_lost_example :
    ((cancel "e1" 9 busy).1 ≡ cancelled (patched (cancel_patch 9) (execution "e1" executing)))
    × EndsAlike plain 12
        (execution "e1" executing)
        (throws (error_object "network"))
        (cancel "e1" 9 busy).0
        busy
unfolding get
cancel_lost_example =
    cancel_lost plain 9 12 (execution "e1" executing) (execution "e1" executing)
      (throws (error_object "network")) busy refl refl

get-recover_example : get "e1" (recover 9 busy).0 ≡ some (recovered 9 (execution "e1" executing))
unfolding get
get-recover_example =
    get-recover 9 busy "e1" (execution "e1" executing) (refl, tt, tt) (omega arith) refl

abbrev landed : ExecutionRecord
landed = record (execution "e1" submitted) { tx_hash = some "h" }

abbrev on_chain : String → TransactionStatus
on_chain hash = TransactionStatus.confirmed

get-reconcile_example :
    get "e1" (reconcile on_chain 9 (("e1", landed) ∷ [])).0 ≡ some (reconciled on_chain 9 landed)
unfolding get
get-reconcile_example =
    get-reconcile on_chain 9 (("e1", landed) ∷ []) "e1" landed (refl, tt, tt) (omega arith) refl
