-- ===== src/Server/Approvals.antt =====
-- `handleApprove` and `handleReject` of apps/api/src/index.ts, from where the request has been parsed.
-- The approval is executed by the queue, at once, or not yet, as the server was configured.
pub mod Decisions
use evergent.Base.{
  ℕ, Bool, true, false, List, [], ◌∷◌, Option, none, some, String, if◌then◌else◌, get_or_else,
}
use evergent.Base.Floats.{Floats}
use evergent.Base.StringMap.{get}
use evergent.Base.Text.{◌<>◌}
use evergent.Shared.{AgentIntent, ActivityRecord, ActivityStatus, AuthorizationStatus}
use evergent.Activity.{ActivityStore, update_activity}
use evergent.Agents.{Directory, can_access_approval}
use evergent.Approval.{
  ApprovalStatus, approved, rejected, expired, ApprovalRecord, ApprovalStore,
  validate_approval_transition, update_approval,
}
use evergent.Execution.{ExecutionRecord, ExecutionStatus}
use evergent.Execution.Store.{Store}
use evergent.Execution.Queue.{enqueue}
use evergent.Pipeline.Approved.{is_expired, expiry_patch}

-- `deferExecution`, a queue, or neither
pub data Mode : Type 0 where
  deferred queued_mode direct : Mode

-- The ids and the clock of one call.
pub record Decision : Type 0 where
  pub now : ℕ
  pub owner_id : Option String
  -- The subject of the principal, or the owner.
  pub approver : String
  pub approval_id : String
  pub execution_id : String
  pub mode : Mode

pub record ApprovalReply : Type 0 where
  pub code : ℕ
  pub activity_id : String
  pub status : ApprovalStatus
  pub message : String

abbrev pub reply : ℕ → String → ApprovalStatus → String → ApprovalReply
reply code activity_id status message = record {
  code = code;
  activity_id = activity_id;
  status = status;
  message = message;
}

abbrev pub not_found : ApprovalReply
not_found = reply 404 "" rejected "approval not found"

abbrev pub approval_patch : ℕ → String → ApprovalRecord → ApprovalRecord
approval_patch now approver a = record a {
  status = approved;
  approved_at = some now;
  approver = some approver;
}

abbrev pub rejection_patch : ℕ → ApprovalRecord → ApprovalRecord
rejection_patch now a = record a { status = rejected; rejected_at = some now }

abbrev pub activity_rejection : ActivityRecord → ActivityRecord
activity_rejection r = record r {
  status = ActivityStatus.rejected;
  authorization_status = some AuthorizationStatus.denied_by_policy;
  error = some "approval rejected by human";
}

-- The record that is put into the queue.
abbrev pub execution_of : Decision → ApprovalRecord → ExecutionRecord
execution_of c a = record {
  id = c.execution_id;
  owner_id = a.owner_id;
  agent_id = a.agent_id;
  approval_id = some c.approval_id;
  activity_id = some a.activity_id;
  intent = a.intent;
  status = ExecutionStatus.queued;
  policy_decision = some a.policy_decision;
  simulation_result = none;
  tx_hash = none;
  submitted_hash = none;
  error = none;
  attempt = 0;
  next_retry_at = none;
  started_at = none;
  completed_at = none;
  error_class = none;
  created_at = c.now;
  updated_at = c.now;
}

module _ (F : Floats) where
  -- The stores, the directory, and the approvals that are to be executed at once.
  pub record Desk : Type 0 where
    pub approvals : ApprovalStore
    pub activities : ActivityStore F
    pub executions : Store
    pub directory : Directory
    pub scheduled : List (String × String)

  abbrev pub hand_over : Mode → Decision → ApprovalRecord → Desk → Desk
  hand_over deferred c a d = d
  hand_over queued_mode c a d = record d { executions = enqueue (execution_of c a) d.executions }
  hand_over direct c a d = record d { scheduled = (c.approval_id, c.approver) ∷ d.scheduled }

  -- The approval may be approved, unless its time is over.
  unfoldable pub approve_pending : Decision → ApprovalRecord → Desk → Desk × ApprovalReply
  unfolding update_approval enqueue
  approve_pending c a d =
      if is_expired a.expires_at c.now
      then (
        record d {
          approvals = (update_approval c.approval_id (expiry_patch c.now) c.now d.approvals).0;
        },
        reply 410 a.activity_id expired "approval expired",
      )
      else (
        hand_over c.mode c a (record d {
          approvals =
              (update_approval c.approval_id (approval_patch c.now c.approver) c.now d.approvals).0;
        }),
        reply 200 a.activity_id approved "approval accepted; transaction queued for execution",
      )

  -- The approval may be rejected.
  unfoldable pub reject_pending : Decision → ApprovalRecord → Desk → Desk × ApprovalReply
  unfolding update_approval update_activity
  reject_pending c a d = (
    record d {
      approvals = (update_approval c.approval_id (rejection_patch c.now) c.now d.approvals).0;
      activities = (update_activity F a.activity_id activity_rejection c.now d.activities).0;
    },
    reply 200 a.activity_id rejected "approval rejected",
  )

  -- What follows the check of the transition.
  abbrev pub if_valid :
      Option String → String → ApprovalRecord → Desk × ApprovalReply → Desk → Desk × ApprovalReply
  if_valid none verb a done d = done
  if_valid (some problem) verb a done d =
      (d, reply 409 a.activity_id a.status ("cannot " <> verb <> ": " <> problem))

  -- The check of the owner, after which the directory may know the agent.
  abbrev pub entered : Decision → Desk → Desk
  entered c d = record d {
    directory = (can_access_approval c.owner_id c.approval_id d.approvals d.directory).0;
  }

  abbrev pub has_access : Decision → Desk → Bool
  has_access c d = (can_access_approval c.owner_id c.approval_id d.approvals d.directory).1

  abbrev pub approve_found : Option ApprovalRecord → Decision → Desk → Desk × ApprovalReply
  approve_found none c d = (d, not_found)
  approve_found (some a) c d =
      if has_access c d
      then if_valid (validate_approval_transition a.status approved) "approve" a
          (approve_pending c a (entered c d)) (entered c d)
      else (entered c d, not_found)

  abbrev pub reject_found : Option ApprovalRecord → Decision → Desk → Desk × ApprovalReply
  reject_found none c d = (d, not_found)
  reject_found (some a) c d =
      if has_access c d
      then if_valid (validate_approval_transition a.status rejected) "reject" a
          (reject_pending c a (entered c d)) (entered c d)
      else (entered c d, not_found)

  -- `handleApprove`
  unfoldable pub handle_approve : Decision → Desk → Desk × ApprovalReply
  unfolding can_access_approval validate_approval_transition approve_pending
  handle_approve c d = approve_found (get c.approval_id d.approvals) c d

  -- `handleReject`
  unfoldable pub handle_reject : Decision → Desk → Desk × ApprovalReply
  unfolding can_access_approval validate_approval_transition reject_pending
  handle_reject c d = reject_found (get c.approval_id d.approvals) c d
