-- ===== src/Execution.antt =====
-- packages/database/src/execution-types.ts: the records of the execution queue. The children model
-- the store, the retry policy, the queue and its workers, crash recovery and reconciliation.
pub mod Retry
pub mod Store
pub mod Queue
pub mod Sweep
pub mod Recovery
pub mod Reconciler
pub mod Workers
use evergent.Base.{ℕ, Bool, true, false, Option, String}
use evergent.Shared.{AgentIntent, PolicyDecision, SimulationResult}

pub data ExecutionStatus : Type 0 where
  queued executing submitted confirmed failed dead_letter : ExecutionStatus

pub data ErrorClass : Type 0 where
  transient permanent : ErrorClass

pub record ExecutionRecord : Type 0 where
  pub id : String
  pub owner_id : String
  pub agent_id : String
  pub approval_id : Option String
  pub activity_id : Option String
  pub intent : AgentIntent
  pub status : ExecutionStatus
  pub policy_decision : Option PolicyDecision
  pub simulation_result : Option SimulationResult
  pub tx_hash : Option String
  pub submitted_hash : Option String
  pub error : Option String
  pub attempt : ℕ
  pub next_retry_at : Option ℕ
  pub started_at : Option ℕ
  pub completed_at : Option ℕ
  pub error_class : Option ErrorClass
  pub created_at : ℕ
  pub updated_at : ℕ

-- `a === b` on statuses
abbrev pub is_status : ExecutionStatus → ExecutionStatus → Bool
is_status queued queued = true
is_status executing executing = true
is_status submitted submitted = true
is_status confirmed confirmed = true
is_status failed failed = true
is_status dead_letter dead_letter = true
is_status _ _ = false
