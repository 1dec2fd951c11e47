-- ===== src/Pipeline/Execute/Admission.antt =====
-- The start of `execute` of packages/stellar/src/pipeline.ts: the validation of the intent, and what
-- follows each decision of the policy.
use evergent.Base.{◌*◌, ◌+◌, false, Option, none, some, String}
use evergent.Base.Floats.{Floats}
use evergent.Base.Text.{◌<>◌}
use evergent.Shared.{
  AgentIntent, PolicyDecision, PolicyResult, allow, deny, requires_approval, ActivityStatus,
  AuthorizationStatus,
}
use evergent.Activity.{ActivityStore}
use evergent.Approval.{create_approval, record_approval}
use evergent.Intents.{validate}
use evergent.Policy.Engine.{evaluate}
use evergent.Pipeline.{
  Parts, PipelineConfig, Moment, evaluation, OutcomeStatus, PipelineOutcome, outcome, denied,
  persist_activity, Pipeline,
}
use evergent.Pipeline.Execute.{
  Call, Source, agent_of, carry_out, concluded, new_activity, owner_of, persist,
}

module _ (F : Floats) {Signed : Type 0} (P : Parts Signed) (cfg : PipelineConfig) where
  -- What follows where the policy denies it.
  unfoldable pub refuse : Call F P cfg → Pipeline F Signed → Pipeline F Signed × PipelineOutcome
  unfolding persist_activity
  refuse c s =
      concluded F P cfg c
        (record (new_activity F P cfg c) {
          status = ActivityStatus.rejected;
          authorization_status = some AuthorizationStatus.denied_by_policy;
          error = some c.decision.reason;
        })
        OutcomeStatus.rejected ("Policy denied: " <> c.decision.reason) none none none s

  -- What follows where it requires approval: an approval that is stored if there is a store.
  unfoldable pub ask : Call F P cfg → Pipeline F Signed → Pipeline F Signed × PipelineOutcome
  unfolding persist_activity record_approval
  ask c s = elim s.activities [
    | none ↦ (s, outcome OutcomeStatus.requires_approval c.decision.reason c.decision)
    | some _ ↦ elim s.approvals [
      | none ↦ (s, outcome OutcomeStatus.requires_approval c.decision.reason c.decision)
      | some approvals ↦
          let activity = record (new_activity F P cfg c) {
            status = ActivityStatus.requires_approval;
            authorization_status = some AuthorizationStatus.pending_approval;
          } in
          let approval =
            create_approval c.moment.approval_id c.moment.now activity.id c.agent_id c.owner_id
              c.intent c.decision (some (c.moment.now + cfg.approval_ttl_seconds * 1000)) in
          let s' = persist F P cfg c activity s in
          (
            record s' { approvals = some (record_approval approval approvals) },
            record (outcome OutcomeStatus.requires_approval c.decision.reason c.decision) {
              activity_id = some activity.id;
              approval_id = some approval.id;
            },
          )
    ]
  ]

  abbrev pub by_decision :
      PolicyResult
      → Call F P cfg
      → P.Account
      → Pipeline F Signed
      → Pipeline F Signed × PipelineOutcome
  by_decision deny c account s = refuse c s
  by_decision requires_approval c account s = ask c s
  by_decision allow c account s = carry_out F P cfg c account s

  -- What follows the answer of the policy engine.
  unfoldable pub act :
      Moment
      → AgentIntent
      → Source P.Account
      → Option String
      → Option (ActivityStore F) × PolicyDecision
      → Pipeline F Signed
      → Pipeline F Signed × PipelineOutcome
  unfolding refuse ask carry_out
  act m intent source key (activities, decision) s =
      by_decision decision.result
        (record {
          moment = m;
          agent_id = agent_of source;
          owner_id = owner_of source;
          intent = intent;
          decision = decision;
          key = key;
        })
        source.account (record s { activities = activities })

  -- `execute`
  unfoldable pub execute :
      Moment
      → AgentIntent
      → Source P.Account
      → Option String
      → Pipeline F Signed
      → Pipeline F Signed × PipelineOutcome
  unfolding validate evaluate act
  execute m intent source key s = elim (validate F intent) [
    | some problem ↦ (
      s,
      outcome OutcomeStatus.rejected ("Intent validation failed: " <> problem)
          (denied "invalid intent" "intent_validation" (some intent)),
    )
    | none ↦
        act m intent source key
          (evaluate F cfg.policy_rules cfg.policy_resolver (evaluation m false) intent
            (agent_of source) s.activities)
          s
  ]
