-- ===== src/Policy/Engine.antt =====
-- `PolicyEngine.evaluate` and `evaluateWithRules` of packages/policy/src/engine.ts: the first check
-- that decides wins. The activity store is threaded through, since the daily limit reserves in it.
use evergent.Base.{Option, none, some, String, get_or_else}
use evergent.Base.Floats.{Floats}
use evergent.Shared.{AgentIntent, PolicyRules, allow, PolicyDecision}
use evergent.Activity.{ActivityStore}
use evergent.Policy.Checks.{
  decide, ◌or_next◌, check_type, check_assets, check_destination, check_contract, check_amount,
  check_max, check_threshold,
}
use evergent.Policy.Daily.{Evaluation, check_daily}

abbrev pub all_passed : AgentIntent → PolicyDecision
all_passed intent = decide intent allow "All policy checks passed" "default"

module _ (F : Floats) where
  abbrev pub before_spending : PolicyRules → AgentIntent → Option PolicyDecision
  before_spending rules intent =
      check_amount F intent or_next check_type rules intent or_next check_max F rules intent

  abbrev pub after_spending : PolicyRules → AgentIntent → PolicyDecision
  after_spending rules intent =
      get_or_else
        (check_threshold F rules intent
          or_next check_assets rules intent
          or_next check_destination rules intent
          or_next check_contract rules intent)
        (all_passed intent)

  -- The daily check, where the engine has an activity store.
  abbrev pub spending :
      PolicyRules
      → Evaluation
      → AgentIntent
      → String
      → Option (ActivityStore F)
      → Option (ActivityStore F) × Option PolicyDecision
  spending rules o intent agent_id none = (none, none)
  spending rules o intent agent_id (some s) =
      let (s', d) = check_daily F rules o intent agent_id s in (some s', d)

  unfoldable pub evaluate_with_rules :
      PolicyRules
      → Evaluation
      → AgentIntent
      → String
      → Option (ActivityStore F)
      → Option (ActivityStore F) × PolicyDecision
  evaluate_with_rules rules o intent agent_id s = elim (before_spending rules intent) [
    | some d ↦ (s, d)
    | none ↦
        let (s', denied) = spending rules o intent agent_id s in
        (s', get_or_else denied (after_spending rules intent))
  ]

  -- `evaluate`: the agent's own rules, where the callback has some, or the default ones.
  unfoldable pub evaluate :
      PolicyRules
      → Option (String → Option PolicyRules)
      → Evaluation
      → AgentIntent
      → String
      → Option (ActivityStore F)
      → Option (ActivityStore F) × PolicyDecision
  unfolding evaluate_with_rules
  evaluate defaults get_rules o intent agent_id s =
      evaluate_with_rules
        (elim get_rules [ none ↦ defaults | some f ↦ get_or_else (f agent_id) defaults ]) o intent
        agent_id s
