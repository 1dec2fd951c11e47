-- ===== src/Pipeline/Execute.antt =====
-- `TransactionPipeline.execute` of packages/stellar/src/pipeline.ts. The steps after the policy are
-- functions of their own, each with its early return.
pub mod Admission
use evergent.Base.{◌*◌, ◌+◌, Option, none, some, String, if◌then◌else◌, or_else, get_or_else}
use evergent.Base.Result.{Result, ok, error}
use evergent.Base.Floats.{Floats}
use evergent.Base.Text.{◌<>◌}
use evergent.Shared.{
  AgentIntent, trustline, payment, contract_call, account_settings, PolicyDecision,
  SimulationResult, ActivityRecord, ActivityStatus, AuthorizationStatus,
}
use evergent.Activity.{create_activity}
use evergent.Network.{submit}
use evergent.Pipeline.{
  Parts, PipelineConfig, Moment, OutcomeStatus, PipelineOutcome, persist_activity, Pipeline,
}

-- The source account with the fields that the caller adds to it.
pub record Source (A : Type 0) : Type 0 where
  pub account : A
  pub agent_id : Option String
  pub owner_id : Option String
  -- `accountId?.()`
  pub account_id : Option String

abbrev pub agent_of : {A : Type 0} → Source A → String
agent_of source = get_or_else (or_else source.agent_id source.account_id) "unknown"

abbrev pub owner_of : {A : Type 0} → Source A → String
owner_of source = get_or_else source.owner_id "unknown"

module _ (F : Floats) {Signed : Type 0} (P : Parts Signed) (cfg : PipelineConfig) where
  -- What each step knows of the call: the moment, the ids, the intent, the decision and the key.
  pub record Call : Type 0 where
    pub moment : Moment
    pub agent_id : String
    pub owner_id : String
    pub intent : AgentIntent
    pub decision : PolicyDecision
    pub key : Option String

  -- `createActivity(agentId, ownerId, intent, decision, idempotencyKey)`
  abbrev pub new_activity : Call → ActivityRecord
  new_activity c =
      create_activity c.moment.activity_id c.moment.now c.agent_id c.owner_id c.intent c.decision
        c.key

  abbrev pub persist : Call → ActivityRecord → Pipeline F Signed → Pipeline F Signed
  persist c r s = record s { activities = persist_activity F r c.key c.moment.now s.activities }

  -- Ends with a record of the activity and an outcome that names it.
  abbrev pub concluded :
      Call
      → ActivityRecord
      → OutcomeStatus
      → String
      → Option SimulationResult
      → Option String
      → Option String
      → Pipeline F Signed
      → Pipeline F Signed × PipelineOutcome
  concluded c r status message simulation tx_hash submitted_hash s = (
    persist c r s,
    record {
      status = status;
      message = message;
      policy_decision = c.decision;
      simulation_result = simulation;
      tx_hash = tx_hash;
      activity_id = some r.id;
      approval_id = none;
      submitted_hash = submitted_hash;
    },
  )

  -- The last step: submission.
  unfoldable pub submit_signed :
      Call → SimulationResult → Signed → Pipeline F Signed → Pipeline F Signed × PipelineOutcome
  unfolding submit persist_activity
  submit_signed c simulation signed s =
      let (sent, result) =
        submit cfg.submitter P.signatures P.submit_transaction P.network_passphrase signed s.sent in
      let s' : Pipeline F Signed = record s { sent = sent } in
      elim result [
        | ok hash ↦
            concluded c
              (record (new_activity c) {
                status = ActivityStatus.submitted;
                authorization_status = some AuthorizationStatus.approved;
                tx_hash = some hash;
                simulation_result = some simulation;
              })
              OutcomeStatus.submitted ("Transaction submitted: " <> hash) (some simulation)
              (some hash) (some hash) s'
        | error message ↦
            concluded c
              (record (new_activity c) {
                status = ActivityStatus.failed;
                error = some message;
                tx_hash = some (P.hash signed);
                simulation_result = some simulation;
              })
              OutcomeStatus.rejected ("Submission failed: " <> message) (some simulation)
              (some (P.hash signed)) none s'
      ]

  unfoldable pub sign_simulated :
      Call → SimulationResult → P.Tx → Pipeline F Signed → Pipeline F Signed × PipelineOutcome
  unfolding submit_signed persist_activity
  sign_simulated c simulation tx s = elim (P.sign tx) [
    | ok signed ↦ submit_signed c simulation signed s
    | error message ↦
        concluded c
          (record (new_activity c) { status = ActivityStatus.failed; error = some message })
          OutcomeStatus.rejected ("Signing failed: " <> message) (some simulation) none none s
  ]

  unfoldable pub simulate_built :
      Call → P.Tx → Pipeline F Signed → Pipeline F Signed × PipelineOutcome
  unfolding sign_simulated persist_activity
  simulate_built c tx s =
      let simulation = P.simulate tx in
      let problem = get_or_else simulation.error "Simulation failed" in
      if simulation.success
      then sign_simulated c simulation tx s
      else concluded c
          (record (new_activity c) {
            status = ActivityStatus.failed;
            authorization_status = some AuthorizationStatus.denied_by_simulation;
            error = some problem;
          })
          OutcomeStatus.simulation_failed problem (some simulation) none none s

  -- Trustlines have a builder of their own, every other intent is built as a payment.
  abbrev pub build : P.Account → AgentIntent → Result P.Tx
  build account (trustline t) = P.build_trustline account (trustline t) P.network_passphrase
  build account (payment p) = P.build_payment account (payment p) P.network_passphrase
  build account (contract_call x) = P.build_payment account (contract_call x) P.network_passphrase
  build account (account_settings x) =
      P.build_payment account (account_settings x) P.network_passphrase

  -- What follows where the policy allows the intent.
  unfoldable pub carry_out :
      Call → P.Account → Pipeline F Signed → Pipeline F Signed × PipelineOutcome
  unfolding simulate_built persist_activity
  carry_out c account s = elim (build account c.intent) [
    | ok tx ↦ simulate_built c tx s
    | error message ↦
        concluded c
          (record (new_activity c) { status = ActivityStatus.rejected; error = some message })
          OutcomeStatus.rejected ("Transaction construction failed: " <> message) none none none s
  ]
