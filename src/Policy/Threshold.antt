-- ===== src/Policy/Threshold.antt =====
-- What the order of the checks in packages/policy/src/engine.ts means for an intent above the
-- approval threshold, and what `skipReservation` leaves alone.
use evergent.Base.{
  ◌≡◌, refl, sym, ◌∙◌, ap, inl, inr, true, List, Option, none, some, String, arith, Option-cases,
  get_or_else,
}
use evergent.Base.Floats.{Floats}
use evergent.Base.Text.{◌<>◌, is_truthy}
use evergent.Shared.{AgentIntent, PolicyRules, requires_approval, PolicyDecision}
use evergent.Activity.{ActivityStore}
use evergent.Policy.Checks.{
  extract_amount, extract_asset, decide, check_max, check_type, check_threshold, is_at_least,
}
use evergent.Policy.Daily.{Evaluation, check_daily}
use evergent.Policy.Branches.{check_daily-no_amount, check_daily-cases}
use evergent.Policy.Engine.{before_spending, after_spending, spending, evaluate_with_rules}

-- The same rules with other lists.
abbrev pub with_lists : PolicyRules → List String → List String → List String → PolicyRules
with_lists rules assets destinations contracts = record rules {
  allowed_assets = assets;
  allowed_destinations = destinations;
  allowed_contract_ids = contracts;
}

module _ (F : Floats) where
  -- The amount needs a human's approval.
  abbrev pub IsAboveThreshold : PolicyRules → AgentIntent → Type 0
  IsAboveThreshold rules intent =
      (amount : String) × (extract_amount intent ≡ some amount)
      × (is_truthy rules.require_human_approval_for_amount_above ≡ true)
      × (is_at_least F amount rules.require_human_approval_for_amount_above ≡ true)

  threshold-decides :
      (rules : PolicyRules) (intent : AgentIntent)
      → IsAboveThreshold rules intent
      → (d : PolicyDecision) × (check_threshold F rules intent ≡ some d)
        × (d.result ≡ requires_approval)
  unfolding check_threshold
  threshold-decides rules intent (amount, at, set_one, above) =
      let threshold = rules.require_human_approval_for_amount_above in
      (
        decide intent requires_approval
            ("Amount "
              <> amount
              <> " "
              <> extract_asset intent
              <> " requires human approval (>= "
              <> threshold
              <> ")")
            "approvalThreshold",
        rw (at, check_threshold) (rw set_one (rw above refl)),
        refl,
      )

  decided :
      (rules : PolicyRules) (intent : AgentIntent) (d : PolicyDecision)
      → check_threshold F rules intent ≡ some d
      → after_spending F rules intent ≡ d
  decided rules intent d e = rw e refl

  -- The decision from the first checks, the daily limit and the last checks.
  conclude :
      PolicyRules
      → Evaluation
      → AgentIntent
      → String
      → Option (ActivityStore F)
      → PolicyDecision
      → Option (ActivityStore F) × PolicyDecision
  conclude rules o intent agent_id s a = elim (before_spending F rules intent) [
    | some d ↦ (s, d)
    | none ↦ let (s', denied) = spending F rules o intent agent_id s in (s', get_or_else denied a)
  ]

  conclude_lists :
      (rules : PolicyRules) (assets destinations contracts : List String) (o : Evaluation)
      (intent : AgentIntent) (agent_id : String) (s : Option (ActivityStore F)) (a : PolicyDecision)
      → conclude (with_lists rules assets destinations contracts) o intent agent_id s a
        ≡ conclude rules o intent agent_id s a
  unfolding conclude check_type check_max check_daily
  conclude_lists rules assets destinations contracts o intent agent_id none a = refl
  conclude_lists rules assets destinations contracts o intent agent_id (some s) a = refl

  -- At or above the approval threshold the three lists do not matter: the decision and the state
  -- are the same whatever assets, destinations and contracts they hold.
  pub above_threshold-skips_lists :
      (rules : PolicyRules) (assets destinations contracts : List String) (o : Evaluation)
      (intent : AgentIntent) (agent_id : String) (s : Option (ActivityStore F))
      → IsAboveThreshold rules intent
      → evaluate_with_rules F (with_lists rules assets destinations contracts) o intent agent_id s
        ≡ evaluate_with_rules F rules o intent agent_id s
  unfolding evaluate_with_rules conclude check_threshold
  above_threshold-skips_lists rules assets destinations contracts o intent agent_id s h =
      let others = with_lists rules assets destinations contracts in
      let (d, e, _) = threshold-decides rules intent h in
      ap (conclude others o intent agent_id s) (decided others intent d e)
      ∙ conclude_lists rules assets destinations contracts o intent agent_id s d
      ∙ ap (conclude rules o intent agent_id s) (sym (decided rules intent d e))

  spending_kept :
      (rules : PolicyRules) (o : Evaluation) (intent : AgentIntent) (agent_id : String)
      (s : Option (ActivityStore F))
      → o.skip_reservation ≡ true
      → (spending F rules o intent agent_id s).0 ≡ s
  spending_kept rules o intent agent_id none skips = refl
  spending_kept rules o intent agent_id (some s) skips =
      ap some (elim (Option-cases (extract_amount intent)) [
        | inl e ↦ rw (check_daily-no_amount F rules o intent agent_id s e) refl
        | inr (amount, e) ↦ elim (check_daily-cases F rules o intent agent_id s amount e) [
          | inl (free, eq) ↦ rw eq refl
          | inr (inl (limited, takes, eq)) ↦ absurd (ground (arith, takes, skips))
          | inr (inr (limited, reads, eq)) ↦ rw eq refl
        ]
      ])

  -- Above the threshold, where no earlier check decides, approval is required.
  pub above_threshold-requires_approval :
      (rules : PolicyRules) (o : Evaluation) (intent : AgentIntent) (agent_id : String)
      (s : Option (ActivityStore F))
      → IsAboveThreshold rules intent
      → before_spending F rules intent ≡ none
      → (spending F rules o intent agent_id s).1 ≡ none
      → (evaluate_with_rules F rules o intent agent_id s).1.result ≡ requires_approval
  unfolding evaluate_with_rules
  above_threshold-requires_approval rules o intent agent_id s h early daily =
      let (d, e, needs) = threshold-decides rules intent h in
      rw (early, evaluate_with_rules) (rw daily (rw e needs))

  -- With `skipReservation` an evaluation leaves the store as it is, whatever it decides.
  pub skip_reservation-keeps :
      (rules : PolicyRules) (o : Evaluation) (intent : AgentIntent) (agent_id : String)
      (s : Option (ActivityStore F))
      → o.skip_reservation ≡ true
      → (evaluate_with_rules F rules o intent agent_id s).0 ≡ s
  unfolding evaluate_with_rules
  skip_reservation-keeps rules o intent agent_id s skips =
      elim (Option-cases (before_spending F rules intent)) [
        | inr (d, e) ↦ rw (e, evaluate_with_rules) refl
        | inl e ↦ rw (e, evaluate_with_rules) (spending_kept rules o intent agent_id s skips)
      ]
