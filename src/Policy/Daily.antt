-- ===== src/Policy/Daily.antt =====
-- The daily spending limit of packages/policy/src/engine.ts: check 3 of `evaluateWithRules`, and
-- `getDailySpent`.
use evergent.Base.{
  ℕ, ◌-◌, ◌%◌, Bool, true, false, not, ◌&&◌, List, [], ◌∷◌, Option, none, some, String,
  if◌then◌else◌, str_eq, leb, get_or_else,
}
use evergent.Base.Floats.{Floats}
use evergent.Base.Text.{◌<>◌, is_given}
use evergent.Shared.{AgentIntent, PolicyRules, deny, PolicyDecision, ActivityRecord, submitted}
use evergent.Activity.{ActivityStore, is_activity_status, list_by_agent, reserve_daily_spending}
use evergent.Policy.Checks.{extract_amount, extract_asset, decide, for_asset}

-- Midnight, in milliseconds.
abbrev pub start_of_day : ℕ → ℕ
start_of_day now = now - now % 86400000

-- Whether an activity counts towards what was spent today.
abbrev pub counts_today : String → ℕ → ActivityRecord → Bool
counts_today asset now a =
    is_activity_status a.status submitted
    && (leb (start_of_day now) a.created_at && str_eq (extract_asset a.intent) asset)

-- The clock's day, whether the store can reserve, and the option `skipReservation`.
pub record Evaluation : Type 0 where
  pub now : ℕ
  pub day : String
  pub can_reserve : Bool
  pub skip_reservation : Bool

module _ (F : Floats) where
  unfoldable pub sum_today : String → ℕ → F.Float → List ActivityRecord → F.Float
  unfolding extract_amount extract_asset
  sum_today asset now acc [] = acc
  sum_today asset now acc (a ∷ activities) =
      sum_today asset now
        (if counts_today asset now a
          then (elim (extract_amount a.intent) [
            | none ↦ acc
            | some amount ↦ F.add acc (F.parse_float amount)
          ])
          else acc)
        activities

  unfoldable pub get_daily_spent : String → String → ℕ → ActivityStore F → F.Float
  unfolding sum_today list_by_agent
  get_daily_spent asset agent_id now s = sum_today asset now F.zero (list_by_agent F agent_id 200 s)

  unfoldable pub over_limit :
      AgentIntent → String → String → String → F.Float → Option PolicyDecision
  over_limit intent amount asset limit spent =
      let limit_num = F.parse_float limit in
      let remaining = F.sub limit_num spent in
      if F.lt remaining (F.parse_float amount)
      then some (
          decide intent deny
            ("Amount "
              <> amount
              <> " "
              <> asset
              <> " exceeds daily limit: spent "
              <> F.to_fixed 7 spent
              <> ", limit "
              <> F.show limit_num
              <> ", remaining "
              <> F.to_fixed 7 remaining)
            "dailySpendingLimit")
      else none

  unfoldable pub reserving :
      AgentIntent
      → String
      → String
      → ActivityStore F × Bool
      → ActivityStore F × Option PolicyDecision
  reserving intent amount asset (s, true) = (s, none)
  reserving intent amount asset (s, false) = (
    s,
    some (
        decide intent deny
          ("Amount " <> amount <> " " <> asset
            <> " exceeds daily limit (atomically reserved failed)")
          "dailySpendingLimit"),
  )

  unfoldable pub check_daily :
      PolicyRules
      → Evaluation
      → AgentIntent
      → String
      → ActivityStore F
      → ActivityStore F × Option PolicyDecision
  unfolding extract_amount extract_asset get_daily_spent over_limit reserving reserve_daily_spending
  check_daily rules o intent agent_id s = elim (extract_amount intent) [
    | none ↦ (s, none)
    | some amount ↦
        let asset = extract_asset intent in
        let limit = for_asset asset rules.daily_spending_limit in
        if is_given limit
        then if not o.skip_reservation && o.can_reserve
          then reserving intent amount asset
              (reserve_daily_spending F o.day agent_id asset amount (get_or_else limit "") s)
          else (
            s,
            over_limit intent amount asset (get_or_else limit "")
                (get_daily_spent asset agent_id o.now s),
          )
        else (s, none)
  ]
