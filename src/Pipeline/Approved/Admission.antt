-- ===== src/Pipeline/Approved/Admission.antt =====
-- The start of `executeApproved` of packages/stellar/src/pipeline.ts: the status of the approval, its
-- time limit, and the policy of now. A whole call is one step on the pipeline's state: what another
-- call does between its reading of the approval and its write of `executing` is not modelled.
use evergent.Base.{ℕ, true, Option, none, some, String, if◌then◌else◌, get_or_else}
use evergent.Base.Floats.{Floats}
use evergent.Base.StringMap.{get}
use evergent.Base.Text.{◌<>◌}
use evergent.Shared.{PolicyDecision, PolicyResult, allow, deny, requires_approval}
use evergent.Activity.{ActivityStore}
use evergent.Approval.{ApprovalRecord, ApprovalStatus, status_text, approved, submitted, confirmed}
use evergent.Policy.Engine.{evaluate}
use evergent.Pipeline.{
  Parts, PipelineConfig, Moment, evaluation, OutcomeStatus, PipelineOutcome, outcome, denied,
  Pipeline,
}
use evergent.Pipeline.Approved.{
  build_approved, executing_patch, expiry_patch, fails, is_expired, put,
}

module _ (F : Floats) {Signed : Type 0} (P : Parts Signed) (cfg : PipelineConfig) where
  abbrev pub going_on :
      String
      → Option String
      → ApprovalRecord
      → ℕ
      → PolicyDecision
      → Pipeline F Signed
      → Pipeline F Signed × PipelineOutcome
  going_on id approver a now decision s =
      build_approved F P cfg id approver a now decision (put F P cfg id executing_patch now s)

  -- The policy of now decides: only a denial stops the execution.
  abbrev pub by_decision :
      PolicyResult
      → String
      → Option String
      → ApprovalRecord
      → ℕ
      → PolicyDecision
      → Pipeline F Signed
      → Pipeline F Signed × PipelineOutcome
  by_decision deny id approver a now decision s =
      fails F P cfg id a now OutcomeStatus.rejected
        ("Policy re-evaluation denied: " <> decision.reason)
        ("Policy re-evaluation denied: " <> decision.reason) decision none none s
  by_decision allow id approver a now decision s = going_on id approver a now decision s
  by_decision requires_approval id approver a now decision s = going_on id approver a now decision s

  unfoldable pub reevaluate :
      String
      → Option String
      → ApprovalRecord
      → Moment
      → Option (ActivityStore F) × PolicyDecision
      → Pipeline F Signed
      → Pipeline F Signed × PipelineOutcome
  unfolding put build_approved
  reevaluate id approver a m (activities, decision) s =
      by_decision decision.result id approver a m.now decision
        (record s { activities = activities })

  abbrev pub refused : String → String → Pipeline F Signed → Pipeline F Signed × PipelineOutcome
  refused message reason s =
      (s, outcome OutcomeStatus.rejected message (denied reason "approval" none))

  abbrev pub already_executed :
      ApprovalRecord → Pipeline F Signed → Pipeline F Signed × PipelineOutcome
  already_executed a s = (
    s,
    record (outcome OutcomeStatus.rejected
        ("Approval already executed with transaction " <> get_or_else a.tx_hash "unknown")
        (denied "already executed" "approval" (some a.intent))) {
          activity_id = some a.activity_id;
        },
  )

  -- The answer by the status of the approval.
  unfoldable pub by_status :
      ApprovalStatus
      → String
      → Option String
      → ApprovalRecord
      → Moment
      → Pipeline F Signed
      → Pipeline F Signed × PipelineOutcome
  unfolding put evaluate reevaluate
  by_status submitted id approver a m s = already_executed a s
  by_status confirmed id approver a m s = already_executed a s
  by_status approved id approver a m s =
      if is_expired a.expires_at m.now
      then (
        put F P cfg id (expiry_patch m.now) m.now s,
        outcome OutcomeStatus.rejected "Approval has expired" (denied "expired" "approval" none),
      )
      else reevaluate id approver a m
          (evaluate F cfg.policy_rules cfg.policy_resolver (evaluation m true) a.intent a.agent_id
            s.activities)
          s
  by_status other id approver a m s =
      refused ("Approval is " <> status_text other <> ", not approved") (status_text other) s

  -- `executeApproved`
  unfoldable pub execute_approved :
      Moment → String → Option String → Pipeline F Signed → Pipeline F Signed × PipelineOutcome
  unfolding by_status
  execute_approved m id approver s = elim s.approvals [
    | none ↦ refused "Pipeline not configured with approval store" "misconfigured" s
    | some approvals ↦ elim s.activities [
      | none ↦ refused "Pipeline not configured with approval store" "misconfigured" s
      | some _ ↦ elim (get id approvals) [
        | none ↦ refused ("Approval " <> id <> " not found") "not found" s
        | some a ↦ by_status a.status id approver a m s
      ]
    ]
  ]
