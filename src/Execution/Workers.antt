-- ===== src/Execution/Workers.antt =====
-- Several workers over one store: the queue's methods as steps that interleave. A worker claims a
-- record by its own copy, which may be stale; `running` holds the copies of the claimed records
-- whose runs have not ended. A restart loses the runs, and recovers before the queue starts, as
-- apps/api/src/index.ts does. Only queued records are cancelled here.
pub mod Exclusion
pub mod Mutex
use evergent.Base.{ℕ, ◌≡◌, ◌≢◌, Bool, true, List, [], ◌∷◌, Option, none, String}
use evergent.Base.StringMap.{get}
use evergent.Execution.{ExecutionStatus, queued, submitted, ExecutionRecord}
use evergent.Execution.Store.{Store}
use evergent.Execution.Queue.{QueueConfig, Executed, PreCheckResult, enqueue, claim, finish}
use evergent.Execution.Queue.Manual.{may_retry, retry_from, cancel_from}
use evergent.Execution.Recovery.{recover}
use evergent.Execution.Reconciler.{TransactionStatus, ReconciliationResult, reconcile_one}

pub record System : Type 0 where
  pub store : Store
  pub running : List ExecutionRecord

-- `ys` is `xs` without one entry `x`.
pub data Pick {A : Type 0} (x : A) : List A → List A → Type 0 where
  here : {xs : List A} → Pick x (x ∷ xs) xs
  there : {y : A} {xs ys : List A} → Pick x xs ys → Pick x (y ∷ xs) (y ∷ ys)

pub data Step (cfg : QueueConfig) (a b : System) : Type 0 where
  enqueued :
      (r : ExecutionRecord)
      → get r.id a.store ≡ none
      → b.store ≡ enqueue r a.store
      → b.running ≡ a.running
      → Step cfg a b
  started :
      (r : ExecutionRecord) (now : ℕ)
      → (claim r now a.store).1 ≡ true
      → b.store ≡ (claim r now a.store).0
      → b.running ≡ r ∷ a.running
      → Step cfg a b
  ended :
      (r : ExecutionRecord) (now : ℕ) (ex : Executed)
      → Pick r a.running b.running
      → b.store ≡ finish cfg now r ex a.store
      → Step cfg a b
  retried :
      (pre_check : Option (String → PreCheckResult)) (existing : ExecutionRecord) (id : String)
      (now : ℕ)
      → may_retry existing ≡ true
      → b.store ≡ (retry_from pre_check existing id now a.store).0
      → b.running ≡ a.running
      → Step cfg a b
  withdrawn :
      (existing : ExecutionRecord) (id : String) (now : ℕ)
      → existing.status ≡ queued
      → b.store ≡ (cancel_from existing id now a.store).0
      → b.running ≡ a.running
      → Step cfg a b
  settled :
      (get_status : String → TransactionStatus) (r : ExecutionRecord) (now : ℕ)
      (c : ReconciliationResult)
      → b.store ≡ (reconcile_one get_status now r (a.store, c)).0
      → b.running ≡ a.running
      → Step cfg a b
  restarted : (now : ℕ) → b.store ≡ (recover now a.store).0 → b.running ≡ [] → Step cfg a b

pub data Reach (cfg : QueueConfig) (a : System) : System → Type 0 where
  start : Reach cfg a a
  step : {b c : System} → Reach cfg a b → Step cfg b c → Reach cfg a c
