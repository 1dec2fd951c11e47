-- ===== src/Shared.antt =====
-- packages/shared/src/types.ts: intents, policy rules and decisions, activity records. A value of
-- type `unknown` is kept as its JSON text; a timestamp is the milliseconds that its ISO string
-- stands for.
pub mod Auth
use evergent.Base.{ℕ, Bool, true, false, List, Option, String}
use evergent.Base.StringMap.{StringMap}

pub record PaymentAsset : Type 0 where
  pub code : String
  pub issuer : Option String

pub record PaymentIntent : Type 0 where
  pub asset : String
  pub asset_details : Option PaymentAsset
  pub destination : String
  pub amount : String
  pub reason : String
  pub memo : Option String

pub record TrustlineIntent : Type 0 where
  pub asset_code : String
  pub issuer : String
  pub limit : Option String
  pub reason : String

pub record ContractCallIntent : Type 0 where
  pub contract_id : String
  pub function : String
  pub args : List String
  pub reason : String

pub record AccountSettingsIntent : Type 0 where
  pub setting : String
  pub value : String
  pub reason : String

pub data AgentIntent : Type 0 where
  payment : PaymentIntent → AgentIntent
  trustline : TrustlineIntent → AgentIntent
  contract_call : ContractCallIntent → AgentIntent
  account_settings : AccountSettingsIntent → AgentIntent

-- `intent.type`
abbrev pub type_of : AgentIntent → String
type_of (payment p) = "payment"
type_of (trustline t) = "trustline"
type_of (contract_call c) = "contract_call"
type_of (account_settings a) = "account_settings"

pub record PolicyRules : Type 0 where
  pub max_tx_amount : StringMap String
  pub daily_spending_limit : StringMap String
  pub allowed_assets : List String
  pub allowed_destinations : List String
  pub allowed_contract_ids : List String
  pub tx_type_restrictions : StringMap Bool
  pub approval_threshold : String
  pub require_human_approval_for_amount_above : String

pub data PolicyResult : Type 0 where
  allow deny requires_approval : PolicyResult

pub record PolicyDecision : Type 0 where
  pub result : PolicyResult
  pub reason : String
  pub rule : String
  pub intent : Option AgentIntent

pub data ActivityStatus : Type 0 where
  pending rejected requires_approval approved signed submitted failed : ActivityStatus

pub data AuthorizationStatus : Type 0 where
  not_required pending_approval approved denied_by_policy denied_by_simulation : AuthorizationStatus

pub record SimulationResult : Type 0 where
  pub success : Bool
  pub fee : String
  pub operations : ℕ
  pub warnings : List String
  pub error : Option String

pub record ActivityRecord : Type 0 where
  pub id : String
  pub agent_id : String
  pub owner_id : String
  pub idempotency_key : Option String
  pub intent : AgentIntent
  pub policy_decision : PolicyDecision
  pub authorization_status : Option AuthorizationStatus
  pub simulation_result : Option SimulationResult
  pub tx_hash : Option String
  pub status : ActivityStatus
  pub error : Option String
  pub created_at : ℕ
  pub updated_at : ℕ
