-- ===== src/Policy/Validation/Accepted.antt =====
-- Which policies `validatePolicyRules` of packages/policy/src/validation.ts accepts.
use evergent.Base.{
  ℕ, Bool, true, false, ◌&&◌, List, Option, none, some, String, all, any, length, ◌==◌, str_eq,
}
use evergent.Base.Floats.{Floats}
use evergent.Base.Json.{Json, null, array, Fields, elements, lookup}
use evergent.Policy.Validation.{
  supported_tx_types, amount_text, is_named, is_address, is_boolean, is_positive, is_amount,
  entries_of,
}

-- `errors.length === 0`
abbrev pub is_valid : List String → Bool
is_valid errors = length errors == 0

-- An amount is a string or a number that passes a test.
abbrev pub amount_accepted : (String → Bool) → Json → Bool
amount_accepted good v = elim (amount_text v) [ none ↦ false | some s ↦ good s ]

abbrev pub list_accepted : (Json → Bool) → Option Json → Bool
list_accepted good none = true
list_accepted good (some (array items)) = all good (elements items)
list_accepted good (some other) = false

abbrev pub threshold_accepted : (String → Bool) → Option Json → Bool
threshold_accepted good none = true
threshold_accepted good (some null) = true
threshold_accepted good (some v) = amount_accepted good v

abbrev pub restriction_accepted : String × Json → Bool
restriction_accepted (type, allowed) =
    any (λ known. str_eq known type) supported_tx_types && is_boolean allowed

module _ (F : Floats) (is_finite : F.Float → Bool) (show_json : Json → String)
    (show_index : ℕ → String) where
  -- A table of values that all pass a test, or none.
  abbrev pub table_accepted : (String × Json → Bool) → Option Json → Bool
  table_accepted good none = true
  table_accepted good (some v) = elim (entries_of F is_finite show_json show_index v) [
    | none ↦ false
    | some table ↦ all good table
  ]

  -- What the fields of an accepted policy are.
  abbrev pub accepted : Fields → Bool
  accepted rules =
      let positive = is_positive F is_finite show_json show_index in
      let amount = is_amount F is_finite show_json show_index in
      table_accepted (λ e. amount_accepted positive e.1) (lookup "maxTxAmount" rules)
      && table_accepted (λ e. amount_accepted amount e.1) (lookup "dailySpendingLimit" rules)
      && threshold_accepted amount (lookup "approvalThreshold" rules)
      && threshold_accepted amount (lookup "requireHumanApprovalForAmountAbove" rules)
      && list_accepted is_named (lookup "allowedAssets" rules)
      && list_accepted is_address (lookup "allowedDestinations" rules)
      && list_accepted is_named (lookup "allowedContractIds" rules)
      && table_accepted restriction_accepted (lookup "txTypeRestrictions" rules)
