-- ===== src/Tests/ServerTests.antt =====
-- The server on the small chain of the pipeline's tests.
use evergent.Base.{ℕ, ◌≡◌, refl, ◌↔◌, ◌⊎◌, true, false, [], ◌∷◌, none, some, String}
use evergent.Base.StringMap.{get, set}
use evergent.Shared.{ActivityRecord}
use evergent.Activity.{get_by_idempotency_key}
use evergent.Agents.{Agent, active, Directory, can_access_agent, resolve_agent}
use evergent.Agents.Access.{owner_of, can_access_agent_iff}
use evergent.Execution.{ExecutionRecord, queued}
use evergent.Pipeline.{Pipeline}
use evergent.Policy.Checks.{extract_amount, compare_amounts}
use evergent.Policy.Threshold.{IsAboveThreshold}
use evergent.Server.{pipeline_executor, IntentRequest}
use evergent.Server.Executor.{HasFailed, executor-above_threshold}
use evergent.Server.Handler.{Surroundings, by_key, handle_intent}
use evergent.Server.Replay.{IsAdmitted, handle_intent-cases, handle_intent-known}
use evergent.Server.Unkeyed.{by_key_forgotten}
use evergent.Base.Text.{strip_slashes, js_length, starts_with}
use evergent.Activity.{record_activity}
use evergent.Intents.{validate}
use evergent.Network.{submit}
use evergent.Pipeline.{Moment, persist_activity}
use evergent.Pipeline.Execute.Admission.{execute}
use evergent.Policy.Checks.{
  check_amount, check_type, check_max, check_assets, check_threshold, check_destination,
  check_contract,
}
use evergent.Policy.Daily.{check_daily}
use evergent.Policy.Engine.{evaluate, evaluate_with_rules}
use evergent.Server.{names_secret}
use evergent.Server.Handler.{evaluated, known}
use evergent.Tests.PipelineTests.{small_chain, live, noon, good_payment, stores}
use evergent.Tests.Samples.{whole, pay, execution, activity, open_rules, parse_whole}

abbrev surroundings : Surroundings ℕ
surroundings = record { record_json = λ r. "{}"; intent_json = λ i. "{}"; no_account = 0 }

abbrev pub ann_agent : Agent
ann_agent = record {
  id = "a1";
  display_name = "Rent";
  description = "";
  owner_id = "ann";
  stellar_address = "";
  capabilities = [];
  status = active;
  is_enabled = true;
  created_at = 1;
  updated_at = 1;
}

-- After a restart: the store has the agent, and the map does not.
abbrev pub restarted : Directory
restarted = record { agents = []; agent_store = some (("a1", ann_agent) ∷ []) }

access_test :
    ((can_access_agent (some "ann") "a1" restarted).1 ≡ true)
    × ((can_access_agent (some "bob") "a1" restarted).1 ≡ false)
    × ((can_access_agent none "a2" restarted).1 ≡ false)
unfolding can_access_agent resolve_agent get set
access_test = (refl, refl, refl)

can_access_agent_iff_example :
    ((can_access_agent (some "ann") "a1" restarted).1 ≡ true)
    ↔ ((o : String) × (some "ann" ≡ some o) × (owner_of "a1" restarted ≡ some o))
can_access_agent_iff_example = can_access_agent_iff (some "ann") "a1" restarted

abbrev approved_one : ExecutionRecord
approved_one = record (execution "e1" queued) { intent = pay "60" "GB" }

needs_approval : IsAboveThreshold whole open_rules (pay "60" "GB")
unfolding extract_amount compare_amounts parse_whole
needs_approval = ("60", refl, refl, refl)

executor-above_threshold_example :
    ((pipeline_executor whole small_chain live "GS" noon approved_one stores).0.sent ≡ [])
    × HasFailed (pipeline_executor whole small_chain live "GS" noon approved_one stores).1
executor-above_threshold_example =
    executor-above_threshold whole small_chain live "GS" noon approved_one stores needs_approval

abbrev later : Moment
later = record noon { now = 2000; activity_id = "x2" }

abbrev request : IntentRequest
request = record { owner_id = "ann"; agent_id = "a1"; intent = good_payment; key = some "k" }

abbrev seen : ActivityRecord
seen = record (activity "x0" "10") { idempotency_key = some "k" }

abbrev seen_stores : Pipeline whole ℕ
seen_stores = record stores {
  activities = some (record { records = ("x0", seen) ∷ []; daily_spending = [] });
}

handle_intent-cases_example :
    ((handle_intent whole small_chain live surroundings noon request restarted stores).1 ≡ stores)
    ⊎ (IsAdmitted whole small_chain live surroundings request restarted
        × ((handle_intent whole small_chain live surroundings noon request restarted stores).1
            ≡ (by_key whole small_chain live surroundings noon request stores).0))
handle_intent-cases_example =
    handle_intent-cases whole small_chain live surroundings noon request restarted stores

handle_intent-known_example :
    (handle_intent whole small_chain live surroundings noon request restarted seen_stores).1
    ≡ seen_stores
unfolding get_by_idempotency_key
handle_intent-known_example =
    handle_intent-known whole small_chain live surroundings noon request restarted seen_stores seen
      refl refl

by_key_forgotten_example :
    known whole small_chain live surroundings request
      (by_key whole small_chain live surroundings noon request stores).0
    ≡ none
unfolding evaluate_with_rules check_amount check_type check_max check_assets check_threshold
    check_destination check_contract check_daily parse_whole execute evaluate validate submit
    strip_slashes js_length starts_with by_key evaluated persist_activity record_activity
    names_secret get_by_idempotency_key get set
by_key_forgotten_example =
    by_key_forgotten whole small_chain live surroundings noon request stores refl refl

-- The same request with the same key, a moment later, pays again.
twice_test :
    (by_key whole small_chain live surroundings later request
      (by_key whole small_chain live surroundings noon request stores).0).0.sent
    ≡ 7 ∷ 7 ∷ []
unfolding evaluate_with_rules check_amount check_type check_max check_assets check_threshold
    check_destination check_contract check_daily parse_whole execute evaluate validate submit
    strip_slashes js_length starts_with by_key evaluated persist_activity record_activity
    names_secret get_by_idempotency_key get set
twice_test = refl
