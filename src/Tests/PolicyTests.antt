-- ===== src/Tests/PolicyTests.antt =====
-- The policy engine at concrete rules and intents.
use evergent.Base.{◌≡◌, refl, ◌↔◌, true, false, [], ◌∷◌, none, some, String}
use evergent.Base.StringMap.{get, set}
use evergent.Shared.{PolicyDecision, allow, requires_approval}
use evergent.Activity.{ActivityStore}
use evergent.Policy.Checks.{
  extract_amount, check_amount, check_type, check_max, check_assets, check_threshold,
  check_destination, check_contract, compare_amounts,
}
use evergent.Policy.Daily.{Evaluation, check_daily}
use evergent.Policy.Engine.{spending, evaluate_with_rules}
use evergent.Policy.Compliance.{IsCompliant}
use evergent.Policy.Allow.{evaluate_with_rules-allow_iff}
use evergent.Policy.Threshold.{IsAboveThreshold, with_lists, above_threshold-skips_lists}
use evergent.Tests.Samples.{whole, pay, open_rules, parse_whole}

abbrev today : Evaluation
today = record { now = 0; day = "2026-01-01"; can_reserve = true; skip_reservation = false }

abbrev again : Evaluation
again = record { now = 0; day = "2026-01-01"; can_reserve = true; skip_reservation = true }

abbrev empty : ActivityStore whole
empty = record { records = []; daily_spending = [] }

checks : Unit {0}
unfolding evaluate_with_rules check_amount check_type check_max check_assets check_threshold
    check_destination check_contract check_daily get set parse_whole
checks = tt

abbrev outcome : String → String → PolicyDecision
outcome amount destination =
    (evaluate_with_rules whole open_rules today (pay amount destination) "a1" (some empty)).1

outcome_tests :
    ((outcome "10" "GB").result ≡ allow)
    × ((outcome "10" "GX").rule ≡ "allowedDestinations")
    × ((outcome "60" "GX").result ≡ requires_approval)
    × ((outcome "101" "GB").rule ≡ "maxTxAmount")
    × ((outcome "x" "GB").rule ≡ "invalidAmount")
    × ((outcome "0" "GB").rule ≡ "positiveAmount")
unfolding checks
outcome_tests = (refl, refl, refl, refl, refl, refl)

evaluate_with_rules-allow_iff_example :
    ((evaluate_with_rules whole open_rules today (pay "10" "GB") "a1" (some empty)).1.result
      ≡ allow)
    ↔ (IsCompliant whole open_rules (pay "10" "GB")
        × ((spending whole open_rules today (pay "10" "GB") "a1" (some empty)).1 ≡ none))
evaluate_with_rules-allow_iff_example =
    evaluate_with_rules-allow_iff whole open_rules today (pay "10" "GB") "a1" (some empty)

large-IsAboveThreshold : IsAboveThreshold whole open_rules (pay "60" "GX")
unfolding extract_amount compare_amounts parse_whole
large-IsAboveThreshold = ("60", refl, refl, refl)

above_threshold-skips_lists_example :
    evaluate_with_rules whole
      (with_lists open_rules [] ("GX" ∷ []) [])
      today
      (pay "60" "GX")
      "a1"
      (some empty)
    ≡ evaluate_with_rules whole open_rules today (pay "60" "GX") "a1" (some empty)
above_threshold-skips_lists_example =
    above_threshold-skips_lists whole open_rules [] ("GX" ∷ []) [] today (pay "60" "GX") "a1"
      (some empty) large-IsAboveThreshold
