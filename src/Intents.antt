-- ===== src/Intents.antt =====
-- packages/agent-core/src/intent-validator.ts: the checks of an intent before any policy is read.
use evergent.Base.{
  ℕ, Bool, false, not, ◌||◌, Option, none, some, String, if◌then◌else◌, ltb, str_eq, get_or_else,
}
use evergent.Base.Floats.{Floats, le_zero}
use evergent.Base.Text.{is_truthy, is_given, js_length, starts_with}
use evergent.Shared.{
  PaymentAsset, PaymentIntent, TrustlineIntent, ContractCallIntent, AccountSettingsIntent,
  AgentIntent, payment, trustline, contract_call, account_settings,
}

-- The error of `{ valid: false, error }`, or nothing for `{ valid: true }`.
abbrev pub Validation : Type 0
Validation = Option String

pub record ParsedAsset : Type 0 where
  pub code : String
  pub issuer : Option String

abbrev pub xlm : ParsedAsset
xlm = record { code = "XLM"; issuer = none }

-- `parseAsset`, of the details that a payment has, and of a payment
abbrev pub parse_details : PaymentAsset → Option ParsedAsset
parse_details d =
    if not (is_truthy d.code) || ltb (js_length d.code) 1
    then none
    else if str_eq d.code "XLM"
    then some xlm
    else if not (is_given d.issuer) || not (starts_with (get_or_else d.issuer "") "G")
    then none
    else some (record { code = d.code; issuer = d.issuer })

unfoldable pub parse_asset : PaymentIntent → Option ParsedAsset
unfolding js_length starts_with
parse_asset p = elim p.asset_details [
  | some d ↦ parse_details d
  | none ↦ if str_eq p.asset "XLM" then some xlm else none
]

-- `MAX_AMOUNT`
abbrev pub max_amount : String
max_amount = "1000000"

-- `s.startsWith("G")` of a string that is not empty
abbrev pub is_account : String → Bool
is_account s = if not (is_truthy s) then false else starts_with s "G"

-- Whether a text is missing or shorter than n.
abbrev pub is_short : ℕ → String → Bool
is_short n s = not (is_truthy s) || ltb (js_length s) n

abbrev pub validate_contract_call : ContractCallIntent → Validation
validate_contract_call c =
    if is_short 3 c.contract_id
    then some "contractId required"
    else if is_short 1 c.function
    then some "function required"
    else if is_short 3 c.reason
    then some "reason required"
    else none

abbrev pub validate_account_settings : AccountSettingsIntent → Validation
validate_account_settings a = if is_truthy a.setting then none else some "setting field required"

module _ (F : Floats) where
  abbrev pub is_positive : String → Bool
  is_positive amount =
      if not (is_truthy amount) || F.is_nan (F.parse_float amount)
      then false
      else not (le_zero F (F.parse_float amount))

  abbrev pub validate_payment : PaymentIntent → Validation
  validate_payment p =
      if not (is_positive p.amount)
      then some "amount must be a positive number"
      else if not (is_account p.destination)
      then some "destination must be a valid Stellar account (G...)"
      else if F.lt (F.parse_float max_amount) (F.parse_float p.amount)
      then some "amount exceeds global maximum"
      else elim (parse_asset p) [
        | none ↦ some "asset must be XLM or specify assetDetails with code + issuer"
        | some asset ↦
            if is_short 3 p.reason then some "reason must be at least 3 characters" else none
      ]

  abbrev pub is_bad_limit : Option String → Bool
  is_bad_limit none = false
  is_bad_limit (some limit) = F.is_nan (F.parse_float limit) || F.lt (F.parse_float limit) F.zero

  abbrev pub validate_trustline : TrustlineIntent → Validation
  validate_trustline t =
      if is_short 1 t.asset_code
      then some "assetCode required"
      else if str_eq t.asset_code "XLM"
      then some "XLM is native and cannot be used as a trustline"
      else if not (is_account t.issuer)
      then some "issuer must be a valid Stellar account"
      else if is_bad_limit t.limit
      then some "limit must be a non-negative number"
      else none

  -- `IntentValidator.validate`
  unfoldable pub validate : AgentIntent → Validation
  unfolding parse_asset js_length starts_with
  validate (payment p) = validate_payment p
  validate (trustline t) = validate_trustline t
  validate (contract_call c) = validate_contract_call c
  validate (account_settings a) = validate_account_settings a
