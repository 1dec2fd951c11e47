-- ===== src/Pipeline.antt =====
-- `TransactionPipeline` of packages/stellar/src/pipeline.ts: its state and what it is given, the
-- outcomes, and `persistActivity`. The transaction builder, the simulator, the signer and Horizon
-- are an interface; the policy engine, the intent validator, the stores and the submitter's gate
-- are those of this library. Pipeline/Execute has `execute`, Pipeline/Approved `executeApproved`.
pub mod Execute
pub mod Approved
pub mod Gate
pub mod Steps
pub mod Once
pub mod Unkeyed
pub mod Attempts
use evergent.Base.{
  ℕ, ◌*◌, ◌+◌, Bool, true, List, ◌∷◌, Option, none, some, String, if◌then◌else◌, get_or_else,
}
use evergent.Base.Result.{Result}
use evergent.Base.Floats.{Floats}
use evergent.Base.Text.{is_given}
use evergent.Shared.{
  AgentIntent, PolicyRules, PolicyDecision, deny, SimulationResult, ActivityRecord,
}
use evergent.Activity.{ActivityStore, record_activity, record_idempotent, update_activity}
use evergent.Approval.{ApprovalStore}
use evergent.Network.{SubmitterConfig}
use evergent.Policy.Daily.{Evaluation}

-- The builder, the simulator, the signer and Horizon, as they answer during one call.
pub record Parts (Signed : Type 0) : Type 1 where
  pub Account : Type 0
  pub Tx : Type 0
  pub network_passphrase : String
  pub load_account : Result Account
  pub build_trustline : Account → AgentIntent → String → Result Tx
  pub build_payment : Account → AgentIntent → String → Result Tx
  pub simulate : Tx → SimulationResult
  pub sign : Tx → Result Signed
  pub hash : Signed → String
  pub signatures : Signed → ℕ
  pub submit_transaction : Signed → Result String

-- `PipelineOptions`, the defaults filled in
pub record PipelineConfig : Type 0 where
  pub submitter : SubmitterConfig
  pub policy_rules : PolicyRules
  pub policy_resolver : Option (String → Option PolicyRules)
  pub approval_ttl_seconds : ℕ

-- The rules that the policy engine uses for an agent.
abbrev pub rules_for : PipelineConfig → String → PolicyRules
rules_for cfg agent_id = elim cfg.policy_resolver [
  | none ↦ cfg.policy_rules
  | some f ↦ get_or_else (f agent_id) cfg.policy_rules
]

-- The clock and the random ids of one call.
pub record Moment : Type 0 where
  pub now : ℕ
  pub day : String
  pub activity_id : String
  pub approval_id : String

abbrev pub evaluation : Moment → Bool → Evaluation
evaluation m skip_reservation = record {
  now = m.now;
  day = m.day;
  can_reserve = true;
  skip_reservation = skip_reservation;
}

pub data OutcomeStatus : Type 0 where
  submitted simulation_failed requires_approval rejected : OutcomeStatus

pub record PipelineOutcome : Type 0 where
  pub status : OutcomeStatus
  pub message : String
  pub policy_decision : PolicyDecision
  pub simulation_result : Option SimulationResult
  pub tx_hash : Option String
  pub activity_id : Option String
  pub approval_id : Option String
  pub submitted_hash : Option String

-- An outcome with nothing but a status, a message and a decision.
abbrev pub outcome : OutcomeStatus → String → PolicyDecision → PipelineOutcome
outcome status message decision = record {
  status = status;
  message = message;
  policy_decision = decision;
  simulation_result = none;
  tx_hash = none;
  activity_id = none;
  approval_id = none;
  submitted_hash = none;
}

abbrev pub denied : String → String → Option AgentIntent → PolicyDecision
denied reason rule intent = record { result = deny; reason = reason; rule = rule; intent = intent }

-- The fields that `persistActivity` merges into the record of a known key.
abbrev pub merge : ActivityRecord → ActivityRecord → ActivityRecord
merge r existing = record existing {
  status = r.status;
  authorization_status = r.authorization_status;
  error = r.error;
  tx_hash = r.tx_hash;
  simulation_result = r.simulation_result;
}

module _ (F : Floats) where
  -- `persistActivity`
  unfoldable pub persist_activity :
      ActivityRecord → Option String → ℕ → Option (ActivityStore F) → Option (ActivityStore F)
  unfolding record_activity record_idempotent update_activity
  persist_activity r key now none = none
  persist_activity r key now (some s) =
      if is_given key
      then (let (s', existing, created) = record_idempotent F (get_or_else key "") r s in
          if created then some s' else some (update_activity F existing.id (merge r) now s').0)
      else some (record_activity F r s)

  -- The stores, and the transactions that were given to Horizon, the latest first.
  pub record Pipeline (T : Type 0) : Type 0 where
    pub activities : Option (ActivityStore F)
    pub approvals : Option ApprovalStore
    pub sent : List T
