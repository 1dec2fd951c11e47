-- ===== src/Tests/ApprovalTests.antt =====
-- Approving and rejecting at a concrete desk.
use evergent.Base.{◌≡◌, refl, ◌⊎◌, [], ◌∷◌, none, some}
use evergent.Base.StringMap.{get, set}
use evergent.Shared.{requires_approval}
use evergent.Agents.{can_access_approval, resolve_agent, can_access_agent}
use evergent.Approval.{
  ApprovalRecord, create_approval, validate_approval_transition, update_approval,
}
use evergent.Server.Approvals.{
  Decision, Desk, queued_mode, execution_of, approve_pending, handle_approve, handle_reject,
}
use evergent.Server.Approvals.Decisions.{IsSame, MayDecide, decision-cases, approved_once}
use evergent.Execution.Queue.{enqueue}
use evergent.Execution.Store.{record_execution}
use evergent.Tests.Samples.{whole, pay}

abbrev asked : ApprovalRecord
asked =
    create_approval "p1" 900 "x1" "a1" "ann" (pay "60" "GB")
      (record {
        result = requires_approval;
        reason = "";
        rule = "approvalThreshold";
        intent = none;
      })
      (some 5000)

abbrev desk : Desk whole
desk = record {
  approvals = ("p1", asked) ∷ [];
  activities = record { records = []; daily_spending = [] };
  executions = [];
  directory = record {
    agents = ("a1", record { id = "a1"; owner_id = "ann" }) ∷ [];
    agent_store = none;
  };
  scheduled = [];
}

abbrev by_ann : Decision
by_ann = record {
  now = 1000;
  owner_id = some "ann";
  approver = "ann";
  approval_id = "p1";
  execution_id = "e1";
  mode = queued_mode;
}

abbrev again : Decision
again = record by_ann { now = 1001; execution_id = "e2" }

abbrev by_bob : Decision
by_bob = record by_ann { owner_id = some "bob" }

-- Ann's approval is accepted and queued, Bob's is refused, and a second one conflicts.
codes_test :
    ((handle_approve whole by_ann desk).1.code ≡ 200)
    × ((handle_approve whole by_ann desk).0.executions ≡ ("e1", execution_of by_ann asked) ∷ [])
    × ((handle_approve whole by_bob desk).1.code ≡ 404)
    × ((handle_approve whole again (handle_approve whole by_ann desk).0).1.code ≡ 409)
unfolding handle_approve can_access_approval can_access_agent resolve_agent approve_pending
    validate_approval_transition update_approval enqueue record_execution get set
codes_test = (refl, refl, refl, refl)

decision-cases_example :
    (IsSame whole desk (handle_approve whole by_bob desk).0
      ⊎ ((a : ApprovalRecord) × MayDecide whole by_bob desk a))
    × (IsSame whole desk (handle_reject whole by_bob desk).0
        ⊎ ((a : ApprovalRecord) × MayDecide whole by_bob desk a))
decision-cases_example = decision-cases whole by_bob desk

approved_once_example :
    IsSame whole
      (handle_approve whole by_ann desk).0
      (handle_approve whole again (handle_approve whole by_ann desk).0).0
    × IsSame whole
        (handle_approve whole by_ann desk).0
        (handle_reject whole again (handle_approve whole by_ann desk).0).0
unfolding handle_approve can_access_approval can_access_agent resolve_agent approve_pending
    validate_approval_transition update_approval get set
approved_once_example = approved_once whole by_ann again desk refl refl
