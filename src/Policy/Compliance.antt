-- ===== src/Policy/Compliance.antt =====
-- The rules that an allowed intent keeps, stated apart from the checks, and what it means that a
-- check of packages/policy/src/engine.ts decides nothing.
use evergent.Base.{
  ◌≡◌, sym, subst, inl, inr, true, false, ◌&&◌, Option, none, some, String, arith, Bool-cases,
  Option-cases,
}
use evergent.Base.Floats.{Floats}
use evergent.Base.Text.{is_truthy}
use evergent.Base.StringMap.{get}
use evergent.Shared.{
  AgentIntent, payment, trustline, contract_call, account_settings, type_of, PolicyRules,
}
use evergent.Policy.Checks.{
  extract_amount, extract_asset, for_asset, check_type, check_assets, check_destination,
  check_contract, check_amount, check_max, check_threshold, excludes, exceeds, is_at_least,
}

-- What is there satisfies `P`.
abbrev pub Holds : (String → Type 0) → Option String → Type 0
Holds P none = Unit
Holds P (some amount) = P amount

-- What the intent names is on the rules' lists, where these are not empty.
abbrev pub IsListed : PolicyRules → AgentIntent → Type 0
IsListed rules (payment p) = excludes rules.allowed_destinations p.destination ≡ false
IsListed rules (contract_call c) = excludes rules.allowed_contract_ids c.contract_id ≡ false
IsListed rules (trustline t) = Unit
IsListed rules (account_settings a) = Unit

module _ (F : Floats) where
  abbrev pub IsPositive : String → Type 0
  IsPositive amount =
      (F.is_nan (F.parse_float amount) ≡ false) × (F.lt F.zero (F.parse_float amount) ≡ true)

  abbrev pub IsWithinMax : PolicyRules → AgentIntent → String → Type 0
  IsWithinMax rules intent amount =
      exceeds F amount (for_asset (extract_asset intent) rules.max_tx_amount) ≡ false

  -- Below the amount from which a human has to approve.
  abbrev pub IsBelowThreshold : PolicyRules → String → Type 0
  IsBelowThreshold rules amount =
      (is_truthy rules.require_human_approval_for_amount_above
        && is_at_least F amount rules.require_human_approval_for_amount_above)
      ≡ false

  -- The amount, if there is one, is a positive number within the maximum and below the approval
  -- threshold; the type is permitted; the asset, the destination or the contract is listed.
  pub record IsCompliant (rules : PolicyRules) (intent : AgentIntent) : Type 0 where
    pub positive : Holds IsPositive (extract_amount intent)
    pub permitted : get (type_of intent) rules.tx_type_restrictions ≡ some true
    pub within_max : Holds (IsWithinMax rules intent) (extract_amount intent)
    pub below_threshold : Holds (IsBelowThreshold rules) (extract_amount intent)
    pub asset_listed : excludes rules.allowed_assets (extract_asset intent) ≡ false
    pub listed : IsListed rules intent

  pub check_amount-none :
      (intent : AgentIntent)
      → check_amount F intent ≡ none
      → Holds IsPositive (extract_amount intent)
  unfolding check_amount
  check_amount-none intent h = elim (Option-cases (extract_amount intent)) [
    | inl e ↦ subst (Holds IsPositive) (sym e) tt
    | inr (amount, e) ↦
        let h' = (rw (e, check_amount) at h) in
        subst (Holds IsPositive) (sym e) (ground (arith, h'), ground (arith, h'))
  ]

  pub check_max-none :
      (rules : PolicyRules) (intent : AgentIntent)
      → check_max F rules intent ≡ none
      → Holds (IsWithinMax rules intent) (extract_amount intent)
  unfolding check_max
  check_max-none rules intent h = elim (Option-cases (extract_amount intent)) [
    | inl e ↦ subst (Holds (IsWithinMax rules intent)) (sym e) tt
    | inr (amount, e) ↦
        let h' = (rw (e, check_max) at h) in
        subst (Holds (IsWithinMax rules intent)) (sym e) (ground (arith, h'))
  ]

  pub check_threshold-none :
      (rules : PolicyRules) (intent : AgentIntent)
      → check_threshold F rules intent ≡ none
      → Holds (IsBelowThreshold rules) (extract_amount intent)
  unfolding check_threshold
  check_threshold-none rules intent h = elim (Option-cases (extract_amount intent)) [
    | inl e ↦ subst (Holds (IsBelowThreshold rules)) (sym e) tt
    | inr (amount, e) ↦
        let h' = (rw (e, check_threshold) at h) in
        subst (Holds (IsBelowThreshold rules)) (sym e) (ground (arith, h'))
  ]

pub check_type-none :
    (rules : PolicyRules) (intent : AgentIntent)
    → check_type rules intent ≡ none
    → get (type_of intent) rules.tx_type_restrictions ≡ some true
unfolding check_type
check_type-none rules intent h = ground (arith, h)

pub check_assets-none :
    (rules : PolicyRules) (intent : AgentIntent)
    → check_assets rules intent ≡ none
    → excludes rules.allowed_assets (extract_asset intent) ≡ false
unfolding check_assets
check_assets-none rules intent h =
    elim (Bool-cases (excludes rules.allowed_assets (extract_asset intent))) [
      | inl e ↦ let h' = (rw (e, check_assets) at h) in cc
      | inr e ↦ e
    ]

pub lists-none :
    (rules : PolicyRules) (intent : AgentIntent)
    → check_destination rules intent ≡ none
    → check_contract rules intent ≡ none
    → IsListed rules intent
unfolding check_destination check_contract
lists-none rules (payment p) d c = ground (arith, d)
lists-none rules (contract_call k) d c = ground (arith, c)
lists-none rules (trustline t) d c = tt
lists-none rules (account_settings a) d c = tt
