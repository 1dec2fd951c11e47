-- ===== src/Server/Handler.antt =====
-- `handleIntent` of apps/api/src/index.ts, from where the request has been parsed. The directory's map
-- and the server's map of agents are one object.
use evergent.Base.{
  ℕ, false, Option, none, some, String, if◌then◌else◌, str_eq, ltb, get_or_else, is_some,
}
use evergent.Base.Result.{Result, ok, error}
use evergent.Base.Floats.{Floats}
use evergent.Base.StringMap.{get}
use evergent.Base.Text.{◌<>◌, is_given, js_length}
use evergent.Shared.{
  AgentIntent, PolicyDecision, PolicyResult, allow, deny, requires_approval, ActivityRecord,
  ActivityStatus,
}
use evergent.Activity.{ActivityStore, create_activity, get_by_idempotency_key, record_activity}
use evergent.Agents.{Agent, is_active, agent_status_text, Directory, can_access_agent}
use evergent.Intents.{validate}
use evergent.Policy.Engine.{evaluate}
use evergent.Pipeline.{
  Parts, PipelineConfig, Moment, evaluation, Pipeline, PipelineOutcome, OutcomeStatus,
}
use evergent.Pipeline.Execute.{Source}
use evergent.Pipeline.Execute.Admission.{execute}
use evergent.Server.{
  names_secret, Reply, problem, answers, untracked, raises, answer_with, IntentRequest, look_up,
  reply_from,
}

-- What the handlers are given beside the pipeline: JSON texts, and the object without an account
-- that stands for a source account where no transaction is to be built.
pub record Surroundings (A : Type 0) : Type 0 where
  pub record_json : ActivityRecord → String
  pub intent_json : AgentIntent → String
  pub no_account : A

module _ (F : Floats) {Signed : Type 0} (P : Parts Signed) (cfg : PipelineConfig)
    (w : Surroundings P.Account) where
  abbrev pub request_source : P.Account → IntentRequest → Source P.Account
  request_source account q = record {
    account = account;
    agent_id = some q.agent_id;
    owner_id = some q.owner_id;
    account_id = none;
  }

  -- The record that has passed `assertNoSecrets`, or the exception.
  abbrev pub checked : ℕ → Option String → Option ActivityRecord → Reply
  checked code approval_id none = raises
  checked code approval_id (some r) =
      if names_secret (w.record_json r) then raises else answers code r approval_id

  abbrev pub after_asking : Pipeline F Signed × PipelineOutcome → Reply
  after_asking (s, o) = elim o.status [
    | OutcomeStatus.requires_approval ↦ elim o.activity_id [
      | some id ↦ checked 202 o.approval_id (look_up F P cfg (some id) s)
      | none ↦ answer_with 202 none (look_up F P cfg (some "") s)
    ]
    | other ↦ answer_with 202 none (look_up F P cfg (some (get_or_else o.activity_id "")) s)
  ]

  abbrev pub after_executing : Pipeline F Signed × PipelineOutcome → Reply
  after_executing (s, o) = elim o.status [
    | OutcomeStatus.submitted ↦ elim (look_up F P cfg o.activity_id s) [
      | some r ↦ if names_secret (w.record_json r) then raises else answers 200 r none
      | none ↦ untracked o
    ]
    | OutcomeStatus.simulation_failed ↦ reply_from F P cfg 422 (s, o)
    | other ↦ reply_from F P cfg 403 (s, o)
  ]

  -- `store.record`
  abbrev pub add_activity : ActivityRecord → Option (ActivityStore F) → Option (ActivityStore F)
  add_activity r none = none
  add_activity r (some a) = some (record_activity F r a)

  -- The source account cannot be loaded: a failed activity is recorded.
  unfoldable pub unloaded :
      Moment
      → IntentRequest
      → PolicyDecision
      → String
      → Pipeline F Signed
      → Pipeline F Signed × Reply
  unfolding record_activity
  unloaded m q decision message s =
      let failed : ActivityRecord =
        record (create_activity m.activity_id m.now q.agent_id q.owner_id q.intent decision none) {
          status = ActivityStatus.failed;
          error = some ("Unable to load source account: " <> message);
        } in
      (record s { activities = add_activity failed s.activities }, answers 502 failed none)

  -- An allowed intent is executed from the account, without the request's key.
  abbrev pub with_account :
      Result P.Account
      → Moment
      → IntentRequest
      → PolicyDecision
      → Pipeline F Signed
      → Pipeline F Signed × Reply
  with_account (error message) m q decision s = unloaded m q decision message s
  with_account (ok account) m q decision s =
      let r = execute F P cfg m q.intent (request_source account q) none s in
      (r.0, after_executing r)

  -- What follows the handler's own evaluation. The key is passed on only where nothing is executed.
  abbrev pub by_decision :
      PolicyResult
      → Moment
      → IntentRequest
      → PolicyDecision
      → Pipeline F Signed
      → Pipeline F Signed × Reply
  by_decision deny m q decision s =
      let r = execute F P cfg m q.intent (request_source w.no_account q) q.key s in
      (r.0, reply_from F P cfg 403 r)
  by_decision requires_approval m q decision s =
      let r = execute F P cfg m q.intent (request_source w.no_account q) q.key s in
      (r.0, after_asking r)
  by_decision allow m q decision s = with_account P.load_account m q decision s

  unfoldable pub evaluated :
      Moment
      → IntentRequest
      → Option (ActivityStore F) × PolicyDecision
      → Pipeline F Signed
      → Pipeline F Signed × Reply
  unfolding execute unloaded names_secret
  evaluated m q (activities, decision) s =
      by_decision decision.result m q decision (record s { activities = activities })

  -- From the evaluation on.
  abbrev pub carry_on : Moment → IntentRequest → Pipeline F Signed → Pipeline F Signed × Reply
  carry_on m q s =
      evaluated m q
        (evaluate F cfg.policy_rules cfg.policy_resolver (evaluation m false) q.intent q.agent_id
          s.activities)
        s

  abbrev pub known : IntentRequest → Pipeline F Signed → Option ActivityRecord
  known q s = elim s.activities [
    | none ↦ none
    | some a ↦ get_by_idempotency_key F q.owner_id q.agent_id (get_or_else q.key "") a
  ]

  -- What follows the look-up of the key.
  abbrev pub by_known :
      Option ActivityRecord → Moment → IntentRequest → Pipeline F Signed → Pipeline F Signed × Reply
  by_known none m q s = carry_on m q s
  by_known (some existing) m q s =
      if str_eq (w.intent_json existing.intent) (w.intent_json q.intent)
      then (s, answers 200 existing none)
      else (s, problem 409 "Idempotency-Key already used with a different intent")

  -- From the idempotency key on.
  unfoldable pub by_key : Moment → IntentRequest → Pipeline F Signed → Pipeline F Signed × Reply
  unfolding evaluate evaluated js_length get_by_idempotency_key
  by_key m q s =
      if is_given q.key
      then if ltb 256 (js_length (get_or_else q.key ""))
        then (s, problem 400 "Idempotency-Key must be 256 characters or fewer")
        else by_known (known q s) m q s
      else carry_on m q s

  abbrev pub stored_agent : String → Directory → Option Agent
  stored_agent id d = elim d.agent_store [ none ↦ none | some store ↦ get id store ]

  -- What follows the look-up of the agent.
  abbrev pub by_agent :
      Option Agent
      → Moment
      → IntentRequest
      → Directory
      → Pipeline F Signed
      → Directory × Pipeline F Signed × Reply
  by_agent none m q d s = (d, s, problem 404 "agent not found")
  by_agent (some agent) m q d s =
      if is_active agent.status then (let (s', reply) = by_key m q s in (d, s', reply)) else (
        d,
        s,
        problem 409 ("agent is " <> agent_status_text agent.status <> "; new intents are rejected"),
      )

  -- `handleIntent`, from the validation of the intent on
  unfoldable pub handle_intent :
      Moment → IntentRequest → Directory → Pipeline F Signed → Directory × Pipeline F Signed × Reply
  unfolding validate can_access_agent by_key
  handle_intent m q d s = elim (validate F q.intent) [
    | some message ↦ (d, s, problem 400 ("Intent validation failed: " <> message))
    | none ↦
        if is_some (get q.agent_id d.agents)
        then (let (d', access) = can_access_agent (some q.owner_id) q.agent_id d in
            if access
            then by_agent (stored_agent q.agent_id d') m q d' s
            else (d', s, problem 404 "not found"))
        else (d, s, problem 404 "agent not found")
  ]
