-- ===== src/Policy/Denials.antt =====
-- The decisions of the checks of packages/policy/src/engine.ts.
use evergent.Base.{
  ◌≡◌, refl, inl, inr, Bool, true, false, Option, none, some, String, Bool-cases, Option-cases,
  if◌then◌else◌,
}
use evergent.Base.Floats.{Floats}
use evergent.Shared.{AgentIntent, payment, contract_call, PolicyRules, deny, PolicyDecision}
use evergent.Activity.{ActivityStore}
use evergent.Policy.Checks.{
  extract_amount, decide, ◌or_next◌, check_type, check_assets, check_destination, check_contract,
  check_amount, check_max,
}
use evergent.Policy.Daily.{Evaluation, check_daily, over_limit, reserving}
use evergent.Policy.Branches.{check_daily-no_amount, check_daily-cases}
use evergent.Policy.Engine.{before_spending}

-- The checks before the daily limit, and those behind it but for the threshold, only deny.
abbrev pub Denies : Option PolicyDecision → Type 0
Denies none = Unit
Denies (some d) = d.result ≡ deny

or_next-Denies : (c d : Option PolicyDecision) → Denies c → Denies d → Denies (c or_next d)
or_next-Denies none d hc hd = hd
or_next-Denies (some c) d hc hd = hc

if-Denies :
    (b : Bool) (intent : AgentIntent) (reason rule : String)
    → Denies (if b then some (decide intent deny reason rule) else none)
if-Denies true intent reason rule = refl
if-Denies false intent reason rule = tt

if-Denies' :
    (b : Bool) (intent : AgentIntent) (reason rule : String)
    → Denies (if b then none else some (decide intent deny reason rule))
if-Denies' true intent reason rule = tt
if-Denies' false intent reason rule = refl

check_type-Denies : (rules : PolicyRules) (intent : AgentIntent) → Denies (check_type rules intent)
unfolding check_type
check_type-Denies rules intent = if-Denies' _ _ _ _

pub check_assets-Denies :
    (rules : PolicyRules) (intent : AgentIntent) → Denies (check_assets rules intent)
unfolding check_assets
check_assets-Denies rules intent = if-Denies _ _ _ _

pub check_destination-Denies :
    (rules : PolicyRules) (intent : AgentIntent) → Denies (check_destination rules intent)
unfolding check_destination
check_destination-Denies rules (payment p) = if-Denies _ _ _ _
check_destination-Denies rules _ = tt

pub check_contract-Denies :
    (rules : PolicyRules) (intent : AgentIntent) → Denies (check_contract rules intent)
unfolding check_contract
check_contract-Denies rules (contract_call c) = if-Denies _ _ _ _
check_contract-Denies rules _ = tt

module _ (F : Floats) where
  check_max-Denies :
      (rules : PolicyRules) (intent : AgentIntent) → Denies (check_max F rules intent)
  unfolding check_max
  check_max-Denies rules intent = elim (Option-cases (extract_amount intent)) [
    | inl e ↦ rw (e, check_max) tt
    | inr (amount, e) ↦ rw (e, check_max) (if-Denies _ _ _ _)
  ]

  check_amount-Denies : (intent : AgentIntent) → Denies (check_amount F intent)
  unfolding check_amount
  check_amount-Denies intent = elim (Option-cases (extract_amount intent)) [
    | inl e ↦ rw (e, check_amount) tt
    | inr (amount, e) ↦ elim (Bool-cases (F.is_nan (F.parse_float amount))) [
      | inl bad ↦ rw (e, check_amount) (rw bad refl)
      | inr fine ↦ rw (e, check_amount) (rw fine (if-Denies _ _ _ _))
    ]
  ]

  pub before_spending-Denies :
      (rules : PolicyRules) (intent : AgentIntent) → Denies (before_spending F rules intent)
  before_spending-Denies rules intent =
      or_next-Denies (check_amount F intent) _ (check_amount-Denies intent) (
        or_next-Denies (check_type rules intent) _ (check_type-Denies rules intent)
          (check_max-Denies rules intent))

  reserving-Denies :
      (intent : AgentIntent) (amount asset : String) (p : ActivityStore F × Bool)
      → Denies (reserving F intent amount asset p).1
  unfolding reserving
  reserving-Denies intent amount asset (s, true) = tt
  reserving-Denies intent amount asset (s, false) = refl

  over_limit-Denies :
      (intent : AgentIntent) (amount asset limit : String) (spent : F.Float)
      → Denies (over_limit F intent amount asset limit spent)
  unfolding over_limit
  over_limit-Denies intent amount asset limit spent = if-Denies _ _ _ _

  pub check_daily-Denies :
      (rules : PolicyRules) (o : Evaluation) (intent : AgentIntent) (agent_id : String)
      (s : ActivityStore F)
      → Denies (check_daily F rules o intent agent_id s).1
  check_daily-Denies rules o intent agent_id s = elim (Option-cases (extract_amount intent)) [
    | inl e ↦ rw (check_daily-no_amount F rules o intent agent_id s e) tt
    | inr (amount, e) ↦ elim (check_daily-cases F rules o intent agent_id s amount e) [
      | inl (free, eq) ↦ rw eq tt
      | inr (inl (limited, takes, eq)) ↦ rw eq (reserving-Denies intent amount _ _)
      | inr (inr (limited, reads, eq)) ↦ rw eq (over_limit-Denies intent amount _ _ _)
    ]
  ]
