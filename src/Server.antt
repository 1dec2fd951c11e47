-- ===== src/Server.antt =====
-- The part of apps/api/src/index.ts that joins the components: the executor that the queue is given,
-- and the handlers of a new intent, an approval and a rejection, from where the request has been
-- parsed. `JSON.stringify` of an intent and of a record is a parameter.
pub mod Handler
pub mod Executor
pub mod Replay
pub mod Approvals
pub mod Unkeyed
pub mod Schedules
pub mod Scheduling
pub mod Requests
use evergent.Base.{
  ℕ, Bool, true, false, ◌&&◌, List, [], ◌∷◌, Option, none, some, String, if◌then◌else◌, any,
}
use evergent.Base.Result.{ok, error}
use evergent.Base.Floats.{Floats}
use evergent.Base.Text.{◌<>◌, codes, contains, to_lower}
use evergent.Shared.{AgentIntent, ActivityRecord}
use evergent.Activity.{get_activity}
use evergent.Execution.{ExecutionRecord, ExecutionStatus, ErrorClass}
use evergent.Execution.Retry.{error_object}
use evergent.Execution.Queue.{ExecutionResult, Executed, returns, throws}
use evergent.Pipeline.{Parts, PipelineConfig, Moment, Pipeline, PipelineOutcome, OutcomeStatus}
use evergent.Pipeline.Execute.{Source}
use evergent.Pipeline.Execute.Admission.{execute}

-- The terms that `assertNoSecrets` refuses.
abbrev forbidden : List String
forbidden = "secret" ∷ "seed" ∷ "private_key" ∷ "mnemonic" ∷ "keypair" ∷ []

-- Whether `assertNoSecrets` throws on a record with this JSON text.
unfoldable pub names_secret : String → Bool
unfolding contains to_lower
names_secret json =
    let blob = to_lower (codes json) in any (λ term. contains (codes term) blob) forbidden

-- The answer of a handler: a status code with an error, with an activity, or with no record of one;
-- or an exception.
pub data Reply : Type 0 where
  problem : ℕ → String → Reply
  answers : ℕ → ActivityRecord → Option String → Reply
  untracked : PipelineOutcome → Reply
  raises : Reply

-- `toIntentResponse(record!)` with a code: it throws where the record is missing.
abbrev pub answer_with : ℕ → Option String → Option ActivityRecord → Reply
answer_with code approval_id none = raises
answer_with code approval_id (some r) = answers code r approval_id

-- A request of an authenticated owner, its path and body parsed.
pub record IntentRequest : Type 0 where
  pub owner_id : String
  pub agent_id : String
  pub intent : AgentIntent
  pub key : Option String

module _ (F : Floats) {Signed : Type 0} (P : Parts Signed) (cfg : PipelineConfig) where
  -- The outcome's class is an error class of the queue; its text is an execution status only where
  -- it is `submitted`, and the queue reads it only then.
  abbrev pub executed : PipelineOutcome → ExecutionResult
  executed o = elim o.status [
    | OutcomeStatus.submitted ↦ record {
      success = true;
      status = ExecutionStatus.submitted;
      error = some o.message;
      error_class = some ErrorClass.transient;
      tx_hash = o.tx_hash;
      submitted_hash = o.tx_hash;
    }
    | OutcomeStatus.rejected ↦ record {
      success = false;
      status = ExecutionStatus.failed;
      error = some o.message;
      error_class = some ErrorClass.permanent;
      tx_hash = o.tx_hash;
      submitted_hash = o.tx_hash;
    }
    | other ↦ record {
      success = false;
      status = ExecutionStatus.failed;
      error = some o.message;
      error_class = some ErrorClass.transient;
      tx_hash = o.tx_hash;
      submitted_hash = o.tx_hash;
    }
  ]

  -- The source account of the queue: the signer's, which names no agent and no owner.
  abbrev pub queue_source : P.Account → String → Source P.Account
  queue_source account account_id = record {
    account = account;
    agent_id = none;
    owner_id = none;
    account_id = some account_id;
  }

  -- `pipelineExecutor`, with the id of the signer's account
  unfoldable pub pipeline_executor :
      String → Moment → ExecutionRecord → Pipeline F Signed → Pipeline F Signed × Executed
  unfolding execute
  pipeline_executor account_id m r s = elim P.load_account [
    | error message ↦ (s, throws (error_object message))
    | ok account ↦
        let (s', o) = execute F P cfg m r.intent (queue_source account account_id) none s in
        (s', returns (executed o))
  ]

  abbrev pub look_up : Option String → Pipeline F Signed → Option ActivityRecord
  look_up none s = none
  look_up (some id) s = elim s.activities [ none ↦ none | some a ↦ get_activity F id a ]

  -- `toIntentResponse(await store.get(outcome.activityId))`
  abbrev pub reply_from : ℕ → Pipeline F Signed × PipelineOutcome → Reply
  reply_from code (s, o) = answer_with code none (look_up o.activity_id s)
