-- ===== src/Tests/RulesTests.antt =====
-- A partial policy that names one limit.
use evergent.Base.{◌≡◌, refl, true, [], ◌∷◌, Option, none, some}
use evergent.Base.StringMap.{get, set}
use evergent.Shared.{
  contract_call, ContractCallIntent, account_settings, AccountSettingsIntent, deny,
}
use evergent.Activity.{ActivityStore}
use evergent.Policy.Engine.{evaluate_with_rules}
use evergent.Policy.Daily.{Evaluation}
use evergent.Policy.Rules.{PartialRules, spread, normalize_policy_rules}
use evergent.Policy.Rules.Defaults.{normalize-denies}
use evergent.Tests.Samples.{whole}

abbrev partial : PartialRules
partial = record {
  max_tx_amount = some (("XLM", "20") ∷ ("EUR", "5") ∷ []);
  daily_spending_limit = none;
  allowed_assets = none;
  allowed_destinations = none;
  allowed_contract_ids = none;
  tx_type_restrictions = some (("trustline", true) ∷ []);
  approval_threshold = some "10";
  require_human_approval_for_amount_above = none;
}

normalize_test :
    ((normalize_policy_rules partial).max_tx_amount ≡ ("XLM", "20") ∷ ("EUR", "5") ∷ [])
    × ((normalize_policy_rules partial).require_human_approval_for_amount_above ≡ "10")
unfolding normalize_policy_rules spread set
normalize_test = (refl, refl)

abbrev now : Evaluation
now = record { now = 0; day = "2026-01-01"; can_reserve = true; skip_reservation = true }

abbrev call : ContractCallIntent
call = record { contract_id = "C1"; function = "f"; args = []; reason = "test" }

abbrev change : AccountSettingsIntent
change = record { setting = "home_domain"; value = "x"; reason = "test" }

abbrev no_store : Option (ActivityStore whole)
no_store = none

normalize-denies_example :
    (let r =
        evaluate_with_rules whole
          (normalize_policy_rules partial)
          now
          (contract_call call)
          "a1"
          no_store in
      (r.0 ≡ no_store) × (r.1.result ≡ deny))
    × (let r =
          evaluate_with_rules whole
            (normalize_policy_rules partial)
            now
            (account_settings change)
            "a1"
            no_store in
        (r.0 ≡ no_store) × (r.1.result ≡ deny))
unfolding get
normalize-denies_example = normalize-denies whole partial now call change "a1" no_store refl refl
