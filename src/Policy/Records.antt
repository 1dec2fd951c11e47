-- ===== src/Policy/Records.antt =====
-- An evaluation of the policy leaves the activity records as they are; it may only reserve spending.
use evergent.Base.{
  Bool, true, false, Option, none, some, String, ◌≡◌, refl, ap, ◌∙◌, inl, inr, Option-cases,
  if_elim, ◌||◌, get_or_else, if◌then◌else◌,
}
use evergent.Base.Floats.{Floats}
use evergent.Base.StringMap.{StringMap, get, set}
use evergent.Shared.{AgentIntent, PolicyRules, ActivityRecord}
use evergent.Activity.{ActivityStore, map_key, reserve_daily_spending}
use evergent.Policy.Checks.{extract_amount}
use evergent.Policy.Daily.{Evaluation, check_daily, reserving}
use evergent.Policy.Branches.{check_daily-no_amount, check_daily-cases}
use evergent.Policy.Engine.{before_spending, spending, evaluate_with_rules}

module _ (F : Floats) where
  abbrev pub records_of : Option (ActivityStore F) → Option (StringMap ActivityRecord)
  records_of none = none
  records_of (some s) = some s.records

  reserve-records :
      (day agent_id asset amount limit : String) (s : ActivityStore F)
      → (reserve_daily_spending F day agent_id asset amount limit s).0.records ≡ s.records
  unfolding reserve_daily_spending
  reserve-records day agent_id asset amount limit s =
      let key = map_key agent_id asset day in
      let total = F.add (get_or_else (get key s.daily_spending) F.zero) (F.parse_float amount) in
      let kept : ActivityStore F × Bool → Type 0 = λ r. r.0.records ≡ s.records in
      let granted : ActivityStore F × Bool =
        (record s { daily_spending = set key total s.daily_spending }, true) in
      if_elim kept (F.is_nan (F.parse_float amount) || F.is_nan (F.parse_float limit)) (s, false)
        (if F.lt (F.parse_float limit) total then (s, false) else granted) (λ t. refl)
        (λ t.
          if_elim kept (F.lt (F.parse_float limit) total) (s, false) granted (λ u. refl)
            (λ u. refl))

  reserving-records :
      (intent : AgentIntent) (amount asset : String) (r : ActivityStore F × Bool)
      → (reserving F intent amount asset r).0.records ≡ r.0.records
  unfolding reserving
  reserving-records intent amount asset (s, true) = refl
  reserving-records intent amount asset (s, false) = refl

  check_daily-records :
      (rules : PolicyRules) (o : Evaluation) (intent : AgentIntent) (agent_id : String)
      (s : ActivityStore F)
      → (check_daily F rules o intent agent_id s).0.records ≡ s.records
  check_daily-records rules o intent agent_id s = elim (Option-cases (extract_amount intent)) [
    | inl e ↦ rw (check_daily-no_amount F rules o intent agent_id s e) refl
    | inr (amount, e) ↦ elim (check_daily-cases F rules o intent agent_id s amount e) [
      | inl (free, eq) ↦ rw eq refl
      | inr (inl (limited, takes, eq)) ↦
          rw eq (reserving-records intent amount _ _ ∙ reserve-records _ _ _ _ _ s)
      | inr (inr (limited, reads, eq)) ↦ rw eq refl
    ]
  ]

  spending-records :
      (rules : PolicyRules) (o : Evaluation) (intent : AgentIntent) (agent_id : String)
      (s : Option (ActivityStore F))
      → records_of (spending F rules o intent agent_id s).0 ≡ records_of s
  spending-records rules o intent agent_id none = refl
  spending-records rules o intent agent_id (some s) =
      ap some (check_daily-records rules o intent agent_id s)

  pub evaluate-records :
      (rules : PolicyRules) (o : Evaluation) (intent : AgentIntent) (agent_id : String)
      (s : Option (ActivityStore F))
      → records_of (evaluate_with_rules F rules o intent agent_id s).0 ≡ records_of s
  unfolding evaluate_with_rules
  evaluate-records rules o intent agent_id s =
      elim (Option-cases (before_spending F rules intent)) [
        | inr (d, e) ↦ rw (e, evaluate_with_rules) refl
        | inl e ↦ rw (e, evaluate_with_rules) (spending-records rules o intent agent_id s)
      ]
