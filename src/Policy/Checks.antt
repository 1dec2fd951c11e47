-- ===== src/Policy/Checks.antt =====
-- The numbered checks of `evaluateWithRules` in packages/policy/src/engine.ts that need no store, with
-- `extractAmount`, `extractAsset` and `compareAmounts`. Each is a function to an optional decision.
-- Numbers are the parameter `F`.
use evergent.Base.{
  Bool, true, false, not, ◌&&◌, ◌||◌, List, [], ◌∷◌, Option, none, some, String, if◌then◌else◌,
  str_eq, or_else, get_or_else, any,
}
use evergent.Base.Floats.{Floats, Comparison, less, same, greater, le_zero}
use evergent.Base.Text.{◌<>◌, is_truthy, is_given}
use evergent.Base.StringMap.{StringMap, get}
use evergent.Shared.{
  AgentIntent, payment, trustline, contract_call, account_settings, type_of, PaymentAsset,
  PolicyRules, PolicyResult, deny, requires_approval, PolicyDecision,
}

unfoldable pub extract_amount : AgentIntent → Option String
extract_amount (payment p) = some p.amount
extract_amount (trustline t) = if is_given t.limit then t.limit else none
extract_amount (contract_call c) = none
extract_amount (account_settings a) = none

-- `${issuer}`
abbrev show_issuer : Option String → String
show_issuer none = "null"
show_issuer (some issuer) = issuer

abbrev asset_name : PaymentAsset → String
asset_name a = if str_eq a.code "XLM" then "XLM" else a.code <> ":" <> show_issuer a.issuer

unfoldable pub extract_asset : AgentIntent → String
extract_asset (payment p) = elim p.asset_details [ some a ↦ asset_name a | none ↦ p.asset ]
extract_asset (trustline t) = "trustline:" <> t.asset_code <> ":" <> t.issuer
extract_asset (contract_call c) = "native"
extract_asset (account_settings a) = "native"

abbrev pub decide : AgentIntent → PolicyResult → String → String → PolicyDecision
decide intent result reason rule = record {
  result = result;
  reason = reason;
  rule = rule;
  intent = some intent;
}

-- The first check that decides.
infixr 30 ◌or_next◌
abbrev pub ◌or_next◌ : Option PolicyDecision → Option PolicyDecision → Option PolicyDecision
none or_next d = d
some c or_next d = some c

-- `list.length > 0 && !list.includes(x)`
abbrev pub excludes : List String → String → Bool
excludes [] x = false
excludes (a ∷ list) x = not (any (λ y. str_eq y x) (a ∷ list))

-- `map[asset] ?? map["native"]`, and whether it is truthy
abbrev pub for_asset : String → StringMap String → Option String
for_asset asset m = or_else (get asset m) (get "native" m)

-- The restriction of the intent's type is `true`.
abbrev pub is_permitted : Option Bool → Bool
is_permitted none = false
is_permitted (some b) = b

unfoldable pub check_type : PolicyRules → AgentIntent → Option PolicyDecision
check_type rules intent =
    if is_permitted (get (type_of intent) rules.tx_type_restrictions)
    then none
    else some (
        decide intent deny ("Transaction type '" <> type_of intent <> "' is not permitted")
          "txTypeRestrictions")

unfoldable pub check_assets : PolicyRules → AgentIntent → Option PolicyDecision
unfolding extract_asset
check_assets rules intent =
    if excludes rules.allowed_assets (extract_asset intent)
    then some (
        decide intent deny ("Asset '" <> extract_asset intent <> "' is not in allowed_assets")
          "allowedAssets")
    else none

unfoldable pub check_destination : PolicyRules → AgentIntent → Option PolicyDecision
check_destination rules (payment p) =
    if excludes rules.allowed_destinations p.destination
    then some (
        decide (payment p) deny
          ("Destination '" <> p.destination <> "' not in allowed_destinations")
          "allowedDestinations")
    else none
check_destination rules (trustline t) = none
check_destination rules (contract_call c) = none
check_destination rules (account_settings a) = none

unfoldable pub check_contract : PolicyRules → AgentIntent → Option PolicyDecision
check_contract rules (contract_call c) =
    if excludes rules.allowed_contract_ids c.contract_id
    then some (
        decide (contract_call c) deny ("Contract '" <> c.contract_id <> "' not in allowed list")
          "allowedContractIds")
    else none
check_contract rules (payment p) = none
check_contract rules (trustline t) = none
check_contract rules (account_settings a) = none

module _ (F : Floats) where
  unfoldable pub compare_amounts : String → String → Comparison
  compare_amounts a b =
      let pa = F.parse_float a in
      let pb = F.parse_float b in
      if F.is_nan pa || F.is_nan pb
      then same
      else if F.lt pb pa
      then greater
      else if F.lt pa pb
      then less
      else same

  abbrev pub is_above : String → String → Bool
  is_above a b = elim (compare_amounts a b) [ greater ↦ true | _ ↦ false ]

  abbrev pub is_at_least : String → String → Bool
  is_at_least a b = elim (compare_amounts a b) [ less ↦ false | _ ↦ true ]

  unfoldable pub check_amount : AgentIntent → Option PolicyDecision
  unfolding extract_amount
  check_amount intent = elim (extract_amount intent) [
    | none ↦ none
    | some amount ↦
        if F.is_nan (F.parse_float amount)
        then some (
            decide intent deny ("Invalid amount: '" <> amount <> "' is not a valid number")
              "invalidAmount")
        else if le_zero F (F.parse_float amount)
        then some (
            decide intent deny ("Amount must be positive, got " <> F.show (F.parse_float amount))
              "positiveAmount")
        else none
  ]

  -- The maximum for the asset, where one is set and is not empty.
  abbrev pub exceeds : String → Option String → Bool
  exceeds amount none = false
  exceeds amount (some most) = is_truthy most && is_above amount most

  unfoldable pub check_max : PolicyRules → AgentIntent → Option PolicyDecision
  unfolding extract_amount extract_asset compare_amounts
  check_max rules intent = elim (extract_amount intent) [
    | none ↦ none
    | some amount ↦
        let asset = extract_asset intent in
        let most = for_asset asset rules.max_tx_amount in
        if exceeds amount most
        then some (
            decide intent deny
              ("Amount "
                <> amount
                <> " "
                <> asset
                <> " exceeds max_tx_amount "
                <> get_or_else most "")
              "maxTxAmount")
        else none
  ]

  unfoldable pub check_threshold : PolicyRules → AgentIntent → Option PolicyDecision
  unfolding extract_amount extract_asset compare_amounts
  check_threshold rules intent = elim (extract_amount intent) [
    | none ↦ none
    | some amount ↦
        let threshold = rules.require_human_approval_for_amount_above in
        if is_truthy threshold && is_at_least amount threshold
        then some (
            decide intent requires_approval
              ("Amount "
                <> amount
                <> " "
                <> extract_asset intent
                <> " requires human approval (>= "
                <> threshold
                <> ")")
              "approvalThreshold")
        else none
  ]
