-- ===== src/Execution/Recovery.antt =====
-- apps/api/src/execution-recovery.ts: `ExecutionRecoveryService.recover`, over the in-memory store,
-- whose calls do not throw, so that `errors` stays empty.
pub mod Effect
use evergent.Base.{
  ℕ, ◌+◌, Bool, true, false, ◌&&◌, not, List, [], ◌∷◌, ◌++◌, Option, none, some, String,
  if◌then◌else◌, length,
}
use evergent.Base.Text.{is_given}
use evergent.Base.StringMap.{get}
use evergent.Execution.{executing, failed, ExecutionRecord, is_status}
use evergent.Execution.Store.{Store, Patch, update, list_stuck_executing, max_limit}

pub record RecoveryResult : Type 0 where
  pub found : ℕ
  pub recovered : ℕ
  pub recovered_ids : List String
  pub skipped : ℕ

abbrev pub recovery_patch : ℕ → Patch
recovery_patch now e = record e {
  status = failed;
  next_retry_at = some now;
  started_at = none;
  updated_at = now;
}

abbrev count_skipped : RecoveryResult → RecoveryResult
count_skipped c = record c { skipped = c.skipped + 1 }

abbrev count_recovered : String → RecoveryResult → RecoveryResult
count_recovered id c = record c {
  recovered = c.recovered + 1;
  recovered_ids = c.recovered_ids ++ id ∷ [];
}

-- One round of the loop, for the listed record `r`.
unfoldable pub recover_one : ℕ → ExecutionRecord → Store × RecoveryResult → Store × RecoveryResult
recover_one now r (s, c) = elim (get r.id s) [
  | none ↦ (s, c)
  | some current ↦
      if is_status current.status executing
      then if is_given current.tx_hash
        then (s, count_skipped c)
        else ((update r.id (recovery_patch now) s).0, count_recovered r.id c)
      else (s, c)
]

unfoldable pub recover_records :
    ℕ → List ExecutionRecord → Store × RecoveryResult → Store × RecoveryResult
unfolding recover_one
recover_records now [] st = st
recover_records now (r ∷ rs) st = recover_records now rs (recover_one now r st)

unfoldable pub recover : ℕ → Store → Store × RecoveryResult
unfolding recover_records list_stuck_executing
recover now s =
    let stuck = list_stuck_executing max_limit s in
    recover_records now stuck
      (s, record { found = length stuck; recovered = 0; recovered_ids = []; skipped = 0 })
