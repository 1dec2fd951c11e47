-- ===== src/Approval.antt =====
-- `ApprovalRecord`, `InMemoryApprovalStore`, `createApproval` and `validateApprovalTransition` of
-- packages/database/src/index.ts. The random id and the clock's time are arguments.
use evergent.Base.{
  ℕ, Bool, true, false, ◌&&◌, List, [], ◌∷◌, Option, none, some, String, filterb, take, any, leb,
  if◌then◌else◌, str_eq,
}
use evergent.Base.Sort.{sort}
use evergent.Base.Text.{◌<>◌}
use evergent.Base.StringMap.{StringMap, get, set, values}
use evergent.Shared.{AgentIntent, PolicyDecision}

pub data ApprovalStatus : Type 0 where
  pending_approval approved rejected expired executing submitted confirmed failed : ApprovalStatus

-- The text that stands for a status.
abbrev pub status_text : ApprovalStatus → String
status_text pending_approval = "pending_approval"
status_text approved = "approved"
status_text rejected = "rejected"
status_text expired = "expired"
status_text executing = "executing"
status_text submitted = "submitted"
status_text confirmed = "confirmed"
status_text failed = "failed"

abbrev pub is_approval_status : ApprovalStatus → ApprovalStatus → Bool
is_approval_status pending_approval pending_approval = true
is_approval_status approved approved = true
is_approval_status rejected rejected = true
is_approval_status expired expired = true
is_approval_status executing executing = true
is_approval_status submitted submitted = true
is_approval_status confirmed confirmed = true
is_approval_status failed failed = true
is_approval_status _ _ = false

pub record ApprovalRecord : Type 0 where
  pub id : String
  pub activity_id : String
  pub agent_id : String
  pub owner_id : String
  pub intent : AgentIntent
  pub policy_decision : PolicyDecision
  pub status : ApprovalStatus
  pub requested_at : ℕ
  pub approved_at : Option ℕ
  pub rejected_at : Option ℕ
  pub expired_at : Option ℕ
  pub approver : Option String
  pub expires_at : Option ℕ
  pub tx_hash : Option String
  pub error : Option String
  pub created_at : ℕ
  pub updated_at : ℕ

-- `createApproval`
abbrev pub create_approval :
    String → ℕ → String → String → String → AgentIntent → PolicyDecision → Option ℕ → ApprovalRecord
create_approval id now activity_id agent_id owner_id intent decision expires_at = record {
  id = id;
  activity_id = activity_id;
  agent_id = agent_id;
  owner_id = owner_id;
  intent = intent;
  policy_decision = decision;
  status = pending_approval;
  requested_at = now;
  approved_at = none;
  rejected_at = none;
  expired_at = none;
  approver = none;
  expires_at = expires_at;
  tx_hash = none;
  error = none;
  created_at = now;
  updated_at = now;
}

-- The table of `validateApprovalTransition`
abbrev pub allowed_next : ApprovalStatus → List ApprovalStatus
allowed_next pending_approval = approved ∷ rejected ∷ expired ∷ executing ∷ []
allowed_next approved = executing ∷ submitted ∷ failed ∷ []
allowed_next rejected = []
allowed_next expired = []
allowed_next executing = submitted ∷ confirmed ∷ failed ∷ []
allowed_next submitted = confirmed ∷ failed ∷ []
allowed_next confirmed = []
allowed_next failed = []

-- `validateApprovalTransition`: nothing where the transition is valid, else the error.
unfoldable pub validate_approval_transition : ApprovalStatus → ApprovalStatus → Option String
validate_approval_transition current next =
    if any (is_approval_status next) (allowed_next current)
    then none
    else some ("Invalid transition: " <> status_text current <> " -> " <> status_text next)

abbrev pub ApprovalStore : Type 0
ApprovalStore = StringMap ApprovalRecord

abbrev newest_first : ApprovalRecord → ApprovalRecord → Bool
newest_first a b = leb b.created_at a.created_at

unfoldable pub record_approval : ApprovalRecord → ApprovalStore → ApprovalStore
record_approval r s = set r.id r s

unfoldable pub list_by_agent : String → ℕ → ApprovalStore → List ApprovalRecord
unfolding sort
list_by_agent agent_id limit s =
    take limit (sort newest_first (filterb (λ r. str_eq r.agent_id agent_id) (values s)))

unfoldable pub list_by_status : String → String → ℕ → ApprovalStore → List ApprovalRecord
unfolding sort
list_by_status agent_id status limit s = take limit (
    sort newest_first (
      filterb (λ r. str_eq r.agent_id agent_id && str_eq (status_text r.status) status) (values s)))

unfoldable pub list_all : ℕ → ApprovalStore → List ApprovalRecord
unfolding sort
list_all limit s = take limit (sort newest_first (values s))

unfoldable pub list_by_owner : String → ℕ → ApprovalStore → List ApprovalRecord
unfolding sort
list_by_owner owner_id limit s =
    take limit (sort newest_first (filterb (λ r. str_eq r.owner_id owner_id) (values s)))

unfoldable pub get_for_owner : String → String → ApprovalStore → Option ApprovalRecord
get_for_owner id owner_id s = elim (get id s) [
  | none ↦ none
  | some r ↦ if str_eq r.owner_id owner_id then some r else none
]

unfoldable pub update_approval :
    String
    → (ApprovalRecord → ApprovalRecord)
    → ℕ
    → ApprovalStore
    → ApprovalStore × Option ApprovalRecord
update_approval id patch now s = elim (get id s) [
  | none ↦ (s, none)
  | some existing ↦
      let updated = record (patch existing) { updated_at = now } in (set id updated s, some updated)
]
