-- ===== src/Execution/Reconciler.antt =====
-- packages/stellar/src/reconciler.ts: `TransactionStatusReconciler.reconcile`. The status provider is
-- given from outside, as its answer for each hash during one pass.
pub mod Effect
use evergent.Base.{
  ℕ, ◌+◌, Bool, true, false, List, [], ◌∷◌, Option, none, some, String, if◌then◌else◌, length,
  get_or_else,
}
use evergent.Base.Text.{is_given}
use evergent.Execution.{ExecutionStatus, submitted, ExecutionRecord}
use evergent.Execution.Store.{Store, Patch, update_if_status, list_submitted, max_limit}

-- `raises`: the provider throws.
pub data TransactionStatus : Type 0 where
  confirmed failed not_found network_error raises : TransactionStatus

pub record ReconciliationResult : Type 0 where
  pub checked : ℕ
  pub confirmed : ℕ
  pub failed : ℕ
  pub skipped : ℕ
  pub errors : ℕ

abbrev pub confirm_patch : ℕ → Patch
confirm_patch now e = record e {
  status = ExecutionStatus.confirmed;
  completed_at = some now;
  updated_at = now;
}

abbrev pub fail_patch : ℕ → Patch
fail_patch now e = record e {
  status = ExecutionStatus.failed;
  error = some "Transaction failed on-chain";
  updated_at = now;
}

abbrev pub count_confirmed :
    Store × Option ExecutionRecord → ReconciliationResult → Store × ReconciliationResult
count_confirmed (s, none) c = (s, c)
count_confirmed (s, some r) c = (s, record c { confirmed = c.confirmed + 1 })

abbrev pub count_failed :
    Store × Option ExecutionRecord → ReconciliationResult → Store × ReconciliationResult
count_failed (s, none) c = (s, c)
count_failed (s, some r) c = (s, record c { failed = c.failed + 1 })

abbrev pub apply_status :
    TransactionStatus → String → ℕ → Store × ReconciliationResult → Store × ReconciliationResult
apply_status TransactionStatus.confirmed id now (s, c) =
    count_confirmed (update_if_status id submitted (confirm_patch now) s) c
apply_status TransactionStatus.failed id now (s, c) =
    count_failed (update_if_status id submitted (fail_patch now) s) c
apply_status not_found id now st = st
apply_status network_error id now st = st
apply_status raises id now (s, c) = (s, record c { errors = c.errors + 1 })

-- One round of the loop, for the listed execution `r`.
unfoldable pub reconcile_one :
    (String → TransactionStatus)
    → ℕ
    → ExecutionRecord
    → Store × ReconciliationResult
    → Store × ReconciliationResult
reconcile_one get_status now r (s, c) =
    if is_given r.tx_hash
    then apply_status (get_status (get_or_else r.tx_hash "")) r.id now (s, c)
    else (s, record c { skipped = c.skipped + 1 })

unfoldable pub reconcile_records :
    (String → TransactionStatus)
    → ℕ
    → List ExecutionRecord
    → Store × ReconciliationResult
    → Store × ReconciliationResult
unfolding reconcile_one
reconcile_records get_status now [] st = st
reconcile_records get_status now (r ∷ rs) st =
    reconcile_records get_status now rs (reconcile_one get_status now r st)

unfoldable pub reconcile : (String → TransactionStatus) → ℕ → Store → Store × ReconciliationResult
unfolding reconcile_records list_submitted
reconcile get_status now s =
    let executions = list_submitted max_limit s in
    reconcile_records get_status now executions (
      s,
      record { checked = length executions; confirmed = 0; failed = 0; skipped = 0; errors = 0 },
    )
