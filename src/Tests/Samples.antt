-- ===== src/Tests/Samples.antt =====
-- The data of the tests: intents, records, and a number type of whole decimals with NaN.
use evergent.Base.{
  ℕ, ◌+◌, ◌-◌, ◌*◌, Bool, true, false, ◌&&◌, List, [], ◌∷◌, Option, none, some, String,
  if◌then◌else◌, leb, ltb,
}
use evergent.Base.Floats.{Floats}
use evergent.Base.Text.{codes}
use evergent.Shared.{AgentIntent, payment, PolicyRules, allow, ActivityRecord, submitted}
use evergent.Execution.{ExecutionStatus, ExecutionRecord}
use evergent.Execution.Retry.{default_retry_policy}
use evergent.Execution.Queue.{QueueConfig, PreCheckResult, network_error}

abbrev pub pay : String → String → AgentIntent
pay amount destination = payment (record {
  asset = "XLM";
  asset_details = none;
  destination = destination;
  amount = amount;
  reason = "rent";
  memo = none;
})

abbrev pub execution : String → ExecutionStatus → ExecutionRecord
execution id status = record {
  id = id;
  owner_id = "ann";
  agent_id = "a1";
  approval_id = none;
  activity_id = none;
  intent = pay "10" "GB";
  status = status;
  policy_decision = none;
  simulation_result = none;
  tx_hash = none;
  submitted_hash = none;
  error = none;
  attempt = 0;
  next_retry_at = none;
  started_at = none;
  completed_at = none;
  error_class = none;
  created_at = 100;
  updated_at = 100;
}

abbrev pub plain : QueueConfig
plain = record { concurrency = 1; retry_policy = default_retry_policy; pre_check = none }

abbrev pub unreachable : String → PreCheckResult
unreachable hash = network_error

abbrev pub guarded : QueueConfig
guarded = record {
  concurrency = 1;
  retry_policy = default_retry_policy;
  pre_check = some unreachable;
}

-- The whole number that a text begins with, and NaN if it begins with no digit.
abbrev is_digit : ℕ → Bool
is_digit c = leb b'0' c && leb c b'9'

digits : Option ℕ → List ℕ → Option ℕ
digits acc [] = acc
digits none (c ∷ s) = if is_digit c then digits (some (c - b'0')) s else none
digits (some n) (c ∷ s) = if is_digit c then digits (some (n * 10 + (c - b'0'))) s else some n

abbrev pub lt_whole : Option ℕ → Option ℕ → Bool
lt_whole (some a) (some b) = ltb a b
lt_whole _ _ = false

abbrev pub add_whole : Option ℕ → Option ℕ → Option ℕ
add_whole (some a) (some b) = some (a + b)
add_whole _ _ = none

abbrev pub sub_whole : Option ℕ → Option ℕ → Option ℕ
sub_whole (some a) (some b) = some (a - b)
sub_whole _ _ = none

abbrev pub nan : Option ℕ → Bool
nan none = true
nan (some a) = false

unfoldable pub parse_whole : String → Option ℕ
unfolding digits
parse_whole s = digits none (codes s)

abbrev pub whole : Floats
whole = record {
  Float = Option ℕ;
  parse_float = parse_whole;
  is_nan = nan;
  lt = lt_whole;
  add = add_whole;
  sub = sub_whole;
  zero = some 0;
  show = λ x. "n";
  to_fixed = λ n x. "n";
}

abbrev pub open_rules : PolicyRules
open_rules = record {
  max_tx_amount = ("XLM", "100") ∷ [];
  daily_spending_limit = ("XLM", "500") ∷ [];
  allowed_assets = "XLM" ∷ [];
  allowed_destinations = "GB" ∷ [];
  allowed_contract_ids = [];
  tx_type_restrictions = ("payment", true) ∷ [];
  approval_threshold = "50";
  require_human_approval_for_amount_above = "50";
}

abbrev pub activity : String → String → ActivityRecord
activity id amount = record {
  id = id;
  agent_id = "a1";
  owner_id = "ann";
  idempotency_key = none;
  intent = pay amount "GB";
  policy_decision = record { result = allow; reason = ""; rule = "default"; intent = none };
  authorization_status = none;
  simulation_result = none;
  tx_hash = none;
  status = submitted;
  error = none;
  created_at = 100;
  updated_at = 100;
}
