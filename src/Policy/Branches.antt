-- ===== src/Policy/Branches.antt =====
-- The branches of check 3 in packages/policy/src/engine.ts: no amount, no limit, a reservation, or a
-- reading of what was spent.
use evergent.Base.{
  ◌≡◌, refl, ◌⊎◌, inl, inr, Bool, true, false, not, ◌&&◌, Option, none, some, String, Bool-cases,
  get_or_else,
}
use evergent.Base.Floats.{Floats}
use evergent.Base.Text.{is_given}
use evergent.Shared.{AgentIntent, PolicyRules}
use evergent.Activity.{ActivityStore, reserve_daily_spending}
use evergent.Policy.Checks.{extract_amount, extract_asset, for_asset}
use evergent.Policy.Daily.{Evaluation, check_daily, over_limit, reserving, get_daily_spent}

module _ (F : Floats) (rules : PolicyRules) (o : Evaluation) (intent : AgentIntent)
    (agent_id : String) (s : ActivityStore F) where
  abbrev pub daily_limit : Option String
  daily_limit = for_asset (extract_asset intent) rules.daily_spending_limit

  abbrev pub reserves : Bool
  reserves = not o.skip_reservation && o.can_reserve

  pub check_daily-no_amount :
      extract_amount intent ≡ none → check_daily F rules o intent agent_id s ≡ (s, none)
  unfolding check_daily
  check_daily-no_amount e = rw (e, check_daily) refl

  pub check_daily-cases :
      (amount : String)
      → extract_amount intent ≡ some amount
      → ((is_given daily_limit ≡ false) × (check_daily F rules o intent agent_id s ≡ (s, none)))
        ⊎ (((is_given daily_limit ≡ true)
              × (reserves ≡ true)
              × (check_daily F rules o intent agent_id s
                  ≡ reserving F intent amount (extract_asset intent) (
                      reserve_daily_spending F o.day agent_id
                        (extract_asset intent)
                        amount
                        (get_or_else daily_limit "")
                        s)))
            ⊎ ((is_given daily_limit ≡ true)
                × (reserves ≡ false)
                × (check_daily F rules o intent agent_id s ≡ (
                  s,
                  over_limit F intent amount
                      (extract_asset intent)
                      (get_or_else daily_limit "")
                      (get_daily_spent F (extract_asset intent) agent_id o.now s),
                ))))
  unfolding check_daily
  check_daily-cases amount e = elim (Bool-cases (is_given daily_limit)) [
    | inr free ↦ inl (free, rw (e, check_daily) (rw free refl))
    | inl limited ↦ elim (Bool-cases reserves) [
      | inl takes ↦ inr (inl (limited, takes, rw (e, check_daily) (rw limited (rw takes refl))))
      | inr reads ↦ inr (inr (limited, reads, rw (e, check_daily) (rw limited (rw reads refl))))
    ]
  ]
