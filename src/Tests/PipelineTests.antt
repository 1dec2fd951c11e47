-- ===== src/Tests/PipelineTests.antt =====
-- The pipeline on a small chain: a signed transaction is a number.
use evergent.Base.{ℕ, ◌+◌, ◌≤◌, ◌≡◌, ◌≢◌, refl, ◌⊎◌, true, false, [], ◌∷◌, none, some, length}
use evergent.Base.Text.{strip_slashes, js_length, starts_with}
use evergent.Base.StringMap.{get, set}
use evergent.Base.Result.{ok}
use evergent.Shared.{AgentIntent, allow, deny, SimulationResult}
use evergent.Approval.{ApprovalRecord, approved, create_approval, update_approval}
use evergent.Intents.{validate}
use evergent.Network.{submit}
use evergent.Pipeline.{Parts, PipelineConfig, Moment, Pipeline}
use evergent.Pipeline.Execute.{Source}
use evergent.Pipeline.Execute.Admission.{execute}
use evergent.Pipeline.Approved.{is_expired}
use evergent.Pipeline.Approved.Admission.{execute_approved}
use evergent.Pipeline.Gate.{execute-sent, decision_on, IsCleared}
use evergent.Pipeline.Steps.{approval_at, HasEnded, IsReady}
use evergent.Pipeline.Once.{execute_approved-sent, decision_now}
use evergent.Pipeline.Attempts.{Attempt, attempts, attempts-sent}
use evergent.Policy.Checks.{
  check_amount, check_type, check_max, check_assets, check_threshold, check_destination,
  check_contract,
}
use evergent.Policy.Daily.{check_daily}
use evergent.Policy.Engine.{evaluate_with_rules}
use evergent.Tests.Samples.{whole, pay, open_rules, parse_whole}

abbrev pub passes : SimulationResult
passes = record { success = true; fee = "100"; operations = 1; warnings = []; error = none }

abbrev pub small_chain : Parts ℕ
small_chain = record {
  Account = ℕ;
  Tx = ℕ;
  network_passphrase = "Test SDF Network ; September 2015";
  load_account = ok 1;
  build_trustline = λ a i p. ok 2;
  build_payment = λ a i p. ok 3;
  simulate = λ t. passes;
  sign = λ t. ok 7;
  hash = λ t. "h";
  signatures = λ t. 1;
  submit_transaction = λ t. ok "h";
}

abbrev pub live : PipelineConfig
live = record {
  submitter = record {
    horizon_url = "https://horizon-testnet.stellar.org/";
    live_submit = some "1";
  };
  policy_rules = open_rules;
  policy_resolver = none;
  approval_ttl_seconds = 86400;
}

abbrev pub noon : Moment
noon = record { now = 1000; day = "2026-01-01"; activity_id = "x1"; approval_id = "p1" }

abbrev pub from_agent : Source ℕ
from_agent = record { account = 1; agent_id = some "a1"; owner_id = some "ann"; account_id = none }

abbrev pub good_payment : AgentIntent
good_payment = pay "10" "GB"

abbrev granted : ApprovalRecord
granted =
    record (create_approval "p1" 900 "x1" "a1" "ann" good_payment
      (record { result = allow; reason = ""; rule = "default"; intent = none }) (some 5000)) {
        status = approved;
      }

abbrev pub stores : Pipeline whole ℕ
stores = record {
  activities = some (record { records = []; daily_spending = [] });
  approvals = some (("p1", granted) ∷ []);
  sent = [];
}

-- Both ways to the network send the signed transaction once.
runs :
    ((execute whole small_chain live noon good_payment from_agent none stores).0.sent ≡ 7 ∷ [])
    × ((execute whole small_chain live noon (pay "60" "GB") from_agent none stores).0.sent ≡ [])
    × ((execute_approved whole small_chain live noon "p1" none stores).0.sent ≡ 7 ∷ [])
unfolding evaluate_with_rules check_amount check_type check_max check_assets check_threshold
    check_destination check_contract check_daily parse_whole execute execute_approved validate
    submit strip_slashes js_length starts_with update_approval get set
runs = (refl, refl, refl)

execute-sent_example :
    ((execute whole small_chain live noon good_payment from_agent none stores).0.sent ≡ [])
    ⊎ ((signed : ℕ) × (validate whole good_payment ≡ none)
        × ((decision_on whole small_chain live noon good_payment from_agent stores).result ≡ allow)
        × IsCleared whole small_chain live 1 good_payment signed
        × ((execute whole small_chain live noon good_payment from_agent none stores).0.sent
            ≡ signed ∷ []))
execute-sent_example = execute-sent whole small_chain live noon good_payment from_agent none stores

execute_approved-sent_example :
    ((execute_approved whole small_chain live noon "p1" none stores).0.sent ≡ [])
    ⊎ ((a : ApprovalRecord) × (signed : ℕ) × (approval_at whole "p1" stores ≡ some a)
        × (a.status ≡ approved)
        × (is_expired a.expires_at noon.now ≡ false)
        × ((decision_now whole small_chain live a noon stores).result ≢ deny)
        × IsReady whole small_chain live a.intent signed
        × ((execute_approved whole small_chain live noon "p1" none stores).0.sent ≡ signed ∷ [])
        × HasEnded whole "p1" (execute_approved whole small_chain live noon "p1" none stores).0)
execute_approved-sent_example = execute_approved-sent whole small_chain live noon "p1" none stores

abbrev once : Attempt ℕ
once = record { parts = small_chain; config = live; moment = noon; approver = none }

attempts-sent_example : length (attempts whole "p1" (once ∷ once ∷ once ∷ []) stores).sent ≤ 0 + 1
attempts-sent_example = attempts-sent whole "p1" (once ∷ once ∷ once ∷ []) stores
