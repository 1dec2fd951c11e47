-- ===== src/Policy/Validation.antt =====
-- `validatePolicyRules` of packages/policy/src/validation.ts. The text that a template makes of a value
-- and `isFinite` are parameters.
pub mod Accepted
use evergent.Base.{
  ℕ, suc, Bool, true, false, not, ◌&&◌, ◌||◌, List, [], ◌∷◌, ◌++◌, Option, none, some, String,
  if◌then◌else◌, any, length, ◌==◌, str_eq,
}
use evergent.Base.Floats.{Floats, le_zero}
use evergent.Base.Json.{
  Json, null, boolean, number, string, array, object, Fields, elements, entries, lookup,
}
use evergent.Base.Parse.{trim}
use evergent.Base.Text.{◌<>◌, codes, js_length, starts_with}

abbrev pub supported_tx_types : List String
supported_tx_types = "payment" ∷ "trustline" ∷ "contract_call" ∷ "account_settings" ∷ []

-- `String(v)` of a value whose type is `string` or `number`
abbrev pub amount_text : Json → Option String
amount_text (number n) = some n
amount_text (string s) = some s
amount_text other = none

-- Whether a value is a string that is not blank.
abbrev pub is_named : Json → Bool
is_named (string s) = not (length (trim (codes s)) == 0)
is_named other = false

abbrev pub is_address : Json → Bool
is_address (string s) = starts_with s "G" && (js_length s == 56)
is_address other = false

abbrev pub is_boolean : Json → Bool
is_boolean (boolean b) = true
is_boolean other = false

abbrev pub error_if : Bool → String → List String
error_if b message = if b then message ∷ [] else []

module _ (F : Floats) (is_finite : F.Float → Bool) (show_json : Json → String)
    (show_index : ℕ → String) where
  -- `isFinite(num) && num > 0`
  abbrev pub is_positive : String → Bool
  is_positive s =
      if not (is_finite (F.parse_float s)) then false else not (le_zero F (F.parse_float s))

  -- `isFinite(num) && num >= 0`
  abbrev pub is_amount : String → Bool
  is_amount s =
      if not (is_finite (F.parse_float s)) then false else not (F.lt (F.parse_float s) F.zero)

  -- The errors of one amount, by its test.
  abbrev pub amount_errors : (String → Bool) → String → String → Json → List String
  amount_errors ok_text label kind v = elim (amount_text v) [
    | none ↦ (label <> " must be a string or number") ∷ []
    | some s ↦ error_if (not (ok_text s)) (label <> " must be a " <> kind <> " number, got " <> s)
  ]

  abbrev pub table_errors : (String → Bool) → String → String → List (String × Json) → List String
  table_errors ok_text name kind [] = []
  table_errors ok_text name kind ((asset, v) ∷ rest) =
      amount_errors ok_text (name <> "." <> asset) kind v ++ table_errors ok_text name kind rest

  -- `Object.entries` of an array
  abbrev pub indexed : ℕ → List Json → List (String × Json)
  indexed i [] = []
  indexed i (v ∷ rest) = (show_index i, v) ∷ indexed (suc i) rest

  -- `Object.entries` of a value of type `object`
  abbrev pub entries_of : Json → Option (List (String × Json))
  entries_of (object fields) = some (entries fields)
  entries_of (array items) = some (indexed 0 (elements items))
  entries_of other = none

  -- `maxTxAmount` and `dailySpendingLimit`
  abbrev pub amounts_errors : (String → Bool) → String → String → Option Json → List String
  amounts_errors ok_text name kind none = []
  amounts_errors ok_text name kind (some v) = elim (entries_of v) [
    | none ↦ (name <> " must be an object") ∷ []
    | some table ↦ table_errors ok_text name kind table
  ]

  -- `approvalThreshold` and its alias, which may be null
  abbrev pub threshold_errors : String → Option Json → List String
  threshold_errors name none = []
  threshold_errors name (some null) = []
  threshold_errors name (some v) = amount_errors is_amount name "non-negative" v

  abbrev pub items_errors : (Json → Bool) → (ℕ → Json → String) → ℕ → List Json → List String
  items_errors good message i [] = []
  items_errors good message i (v ∷ rest) =
      error_if (not (good v)) (message i v) ++ items_errors good message (suc i) rest

  abbrev pub list_errors : String → (Json → Bool) → (ℕ → Json → String) → Option Json → List String
  list_errors name good message none = []
  list_errors name good message (some (array items)) = items_errors good message 0 (elements items)
  list_errors name good message (some other) = (name <> " must be an array") ∷ []

  abbrev pub restriction_errors : List (String × Json) → List String
  restriction_errors [] = []
  restriction_errors ((type, allowed) ∷ rest) =
      error_if (not (any (λ known. str_eq known type) supported_tx_types))
        ("txTypeRestrictions." <> type <> " is not a supported transaction type")
      ++ error_if (not (is_boolean allowed)) ("txTypeRestrictions." <> type <> " must be a boolean")
      ++ restriction_errors rest

  abbrev pub restrictions_errors : Option Json → List String
  restrictions_errors none = []
  restrictions_errors (some v) = elim (entries_of v) [
    | none ↦ "txTypeRestrictions must be an object" ∷ []
    | some table ↦ restriction_errors table
  ]

  abbrev pub not_named : String → ℕ → Json → String
  not_named name i v = name <> "[" <> show_index i <> "] must be a non-empty string"

  abbrev pub not_address : ℕ → Json → String
  not_address i v =
      "allowedDestinations["
      <> show_index i
      <> "] must be a valid Stellar address (G...), got \""
      <> show_json v
      <> "\""

  -- The errors of an object.
  unfoldable pub rules_errors : Fields → List String
  unfolding trim js_length starts_with
  rules_errors rules =
      amounts_errors is_positive "maxTxAmount" "positive" (lookup "maxTxAmount" rules)
      ++ amounts_errors is_amount "dailySpendingLimit" "non-negative"
          (lookup "dailySpendingLimit" rules)
      ++ threshold_errors "approvalThreshold" (lookup "approvalThreshold" rules)
      ++ threshold_errors "requireHumanApprovalForAmountAbove"
          (lookup "requireHumanApprovalForAmountAbove" rules)
      ++ list_errors "allowedAssets" is_named (not_named "allowedAssets")
          (lookup "allowedAssets" rules)
      ++ list_errors "allowedDestinations" is_address not_address
          (lookup "allowedDestinations" rules)
      ++ list_errors "allowedContractIds" is_named (not_named "allowedContractIds")
          (lookup "allowedContractIds" rules)
      ++ restrictions_errors (lookup "txTypeRestrictions" rules)

  -- `validatePolicyRules`: its errors, of which a valid policy has none. An array is an object with
  -- none of the fields.
  unfoldable pub validate_policy_rules : Json → List String
  unfolding rules_errors
  validate_policy_rules (object rules) = rules_errors rules
  validate_policy_rules (array items) = []
  validate_policy_rules other = "Policy must be an object" ∷ []
