-- ===== src/Server/Executor.antt =====
-- What the queue's executor does with an intent that needs a human's approval. The queue's records
-- are those of intents that a human has approved.
use evergent.Base.{
  false, Option, none, String, ◌≡◌, ◌≢◌, refl, subst, ◌⊎◌, inl, inr, Option-cases, arith,
}
use evergent.Base.Result.{Result-cases}
use evergent.Base.Floats.{Floats}
use evergent.Shared.{
  AgentIntent, PolicyDecision, PolicyResult, PolicyRules, allow, deny, requires_approval,
}
use evergent.Activity.{ActivityStore}
use evergent.Execution.{ExecutionRecord}
use evergent.Execution.Queue.{Executed, returns, throws}
use evergent.Intents.{validate}
use evergent.Policy.Allow.{evaluate_with_rules-allow_iff}
use evergent.Policy.Compliance.{Holds}
use evergent.Policy.Engine.{evaluate, evaluate_with_rules}
use evergent.Policy.Daily.{Evaluation}
use evergent.Policy.Threshold.{IsAboveThreshold}
use evergent.Pipeline.{
  Parts, PipelineConfig, rules_for, Moment, evaluation, Pipeline, PipelineOutcome, OutcomeStatus,
}
use evergent.Pipeline.Execute.{Call, Source}
use evergent.Pipeline.Execute.Admission.{refuse, ask, by_decision, act, execute}
use evergent.Pipeline.Gate.{execute-sent, decision_on}
use evergent.Server.{executed, queue_source, pipeline_executor}

above_threshold-not_allowed :
    (F : Floats) (rules : PolicyRules) (o : Evaluation) (intent : AgentIntent) (agent_id : String)
    (s : Option (ActivityStore F))
    → IsAboveThreshold F rules intent
    → (evaluate_with_rules F rules o intent agent_id s).1.result ≢ allow
above_threshold-not_allowed F rules o intent agent_id s (amount, at, needed, above) h =
    let compliant = ((evaluate_with_rules-allow_iff F rules o intent agent_id s).0 h).0 in
    let below = subst (Holds _) at compliant.below_threshold in ground (arith, needed, above, below)

-- The run failed: it threw, or it reported that it had no success.
pub HasFailed : Executed → Type 0
HasFailed (throws e) = Unit
HasFailed (returns r) = r.success ≡ false

module _ (F : Floats) {Signed : Type 0} (P : Parts Signed) (cfg : PipelineConfig) where
  -- Nothing was submitted.
  abbrev IsIdle : PipelineOutcome → Type 0
  IsIdle o = (o.status ≡ OutcomeStatus.rejected) ⊎ (o.status ≡ OutcomeStatus.requires_approval)

  IsIdle-failed : (o : PipelineOutcome) → IsIdle o → (executed F P cfg o).success ≡ false
  IsIdle-failed o (inl e) = simp (executed, e)
  IsIdle-failed o (inr e) = simp (executed, e)

  ask-IsIdle : (c : Call F P cfg) (s : Pipeline F Signed) → IsIdle (ask F P cfg c s).1
  unfolding ask
  ask-IsIdle c s = elim (Option-cases s.activities) [
    | inl e ↦ inr (rw (e, ask) refl)
    | inr (x, e) ↦ elim (Option-cases s.approvals) [
      | inl f ↦ inr (rw (e, ask, f) refl)
      | inr (y, f) ↦ inr (rw (e, ask, f) refl)
    ]
  ]

  by_decision-IsIdle :
      (r : PolicyResult) (c : Call F P cfg) (account : P.Account) (s : Pipeline F Signed)
      → r ≢ allow
      → IsIdle (by_decision F P cfg r c account s).1
  unfolding refuse
  by_decision-IsIdle deny c account s h = inl refl
  by_decision-IsIdle requires_approval c account s h = ask-IsIdle c s
  by_decision-IsIdle allow c account s h = absurd (h refl)

  act-IsIdle :
      (m : Moment) (intent : AgentIntent) (source : Source P.Account) (key : Option String)
      (answer : Option (ActivityStore F) × PolicyDecision) (s : Pipeline F Signed)
      → answer.1.result ≢ allow
      → IsIdle (act F P cfg m intent source key answer s).1
  unfolding act
  act-IsIdle m intent source key (activities, d) s h =
      by_decision-IsIdle d.result _ source.account (record s { activities = activities }) h

  execute-IsIdle :
      (m : Moment) (intent : AgentIntent) (source : Source P.Account) (key : Option String)
      (s : Pipeline F Signed)
      → (decision_on F P cfg m intent source s).result ≢ allow
      → IsIdle (execute F P cfg m intent source key s).1
  unfolding execute
  execute-IsIdle m intent source key s h = elim (Option-cases (validate F intent)) [
    | inr (problem, e) ↦ inl (rw (e, execute) refl)
    | inl e ↦ rw (e, execute) (act-IsIdle m intent source key _ s h)
  ]

  -- The queue never sends an intent whose amount is at or above the approval threshold of the rules for the
  -- signer's account, approved or not: its executor evaluates the policy anew, gives nothing to
  -- Horizon, and the run fails.
  pub executor-above_threshold :
      (account_id : String) (m : Moment) (r : ExecutionRecord) (s : Pipeline F Signed)
      → IsAboveThreshold F (rules_for cfg account_id) r.intent
      → ((pipeline_executor F P cfg account_id m r s).0.sent ≡ s.sent)
        × HasFailed (pipeline_executor F P cfg account_id m r s).1
  unfolding pipeline_executor HasFailed evaluate
  executor-above_threshold account_id m r s above = elim (Result-cases P.load_account) [
    | inr (message, e) ↦ rw (e, pipeline_executor) (refl, tt)
    | inl (account, e) ↦
        let source = queue_source F P cfg account account_id in
        let refused =
          above_threshold-not_allowed F (rules_for cfg account_id) (evaluation m false) r.intent
            account_id s.activities above in
        let idle = execute-IsIdle m r.intent source none s refused in
        rw (e, pipeline_executor)
          (
            elim (execute-sent F P cfg m r.intent source none s) [
              | inl same ↦ same
              | inr (signed, _, allows, _, _) ↦ absurd (refused allows)
            ],
            IsIdle-failed (execute F P cfg m r.intent source none s).1 idle,
          )
  ]
