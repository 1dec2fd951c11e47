-- ===== src/Stellar/Builder.antt =====
-- `StellarTransactionBuilder` of packages/stellar/src/transaction-builder.ts. The text of a memo is
-- made by a parameter, which stands for `truncateToMemo` on JavaScript's strings.
use evergent.Base.{
  Bool, not, ◌&&◌, ◌||◌, Option, none, some, String, if◌then◌else◌, ltb, str_eq, get_or_else,
}
use evergent.Base.Result.{Result, ok, error}
use evergent.Base.Floats.{Floats, le_zero}
use evergent.Base.Text.{◌<>◌, is_truthy, is_given, js_length, starts_with, trim_text}
use evergent.Shared.{PaymentIntent, TrustlineIntent, AgentIntent, payment, trustline, type_of}
use evergent.Stellar.{Sdk}

-- `AssetIdentifier`
pub record AssetIdentifier : Type 0 where
  pub code : String
  pub issuer : Option String

-- `parseAssetInput`
unfoldable pub parse_asset_input : PaymentIntent → AssetIdentifier
parse_asset_input p = elim p.asset_details [
  | some d ↦ record { code = d.code; issuer = d.issuer }
  | none ↦
      if str_eq p.asset "XLM"
      then record { code = "XLM"; issuer = none }
      else record { code = p.asset; issuer = none }
]

abbrev pub bind {ℓ κ} : {A : Type ℓ} {B : Type κ} → Result A → (A → Result B) → Result B
bind (ok a) f = f a
bind (error message) f = error message

abbrev pub refuse {ℓ} : {A : Type ℓ} → String → Result A
refuse message = error ("StellarTransactionBuilder: " <> message)

module _ (F : Floats) (S : Sdk) (memo_text : String → String) where
  -- `toStellarAsset`
  abbrev pub to_stellar_asset : AssetIdentifier → Result S.Asset
  to_stellar_asset id =
      if str_eq id.code "XLM" || not (is_given id.issuer)
      then ok S.native
      else S.new_asset id.code (get_or_else id.issuer "")

  abbrev pub fee : String
  fee = "100000"

  -- `!amount || isNaN(parseFloat(amount)) || parseFloat(amount) <= 0`
  abbrev pub is_bad_amount : String → Bool
  is_bad_amount amount =
      not (is_truthy amount) || F.is_nan (F.parse_float amount) || le_zero F (F.parse_float amount)

  abbrev pub assemble : S.Account → String → String → S.Operation → Result S.Transaction
  assemble account passphrase reason operation =
      S.build account passphrase fee (memo_text reason) operation 30

  abbrev pub build_payment_intent : S.Account → PaymentIntent → String → Result S.Transaction
  build_payment_intent account p passphrase =
      let amount = trim_text p.amount in
      let destination = trim_text p.destination in
      let id = parse_asset_input p in
      if is_bad_amount amount
      then refuse "amount must be a positive number"
      else if not (is_truthy destination) || not (starts_with destination "G")
      then refuse "destination must be a valid Stellar account"
      else if not (str_eq id.code "XLM") && not (is_given id.issuer)
      then refuse "non-XLM asset requires issuer"
      else bind (to_stellar_asset id) (λ asset.
        bind (S.payment_operation destination asset amount)
          (λ operation. assemble account passphrase p.reason operation))

  -- `buildPayment`
  unfoldable pub build_payment : S.Account → AgentIntent → String → Result S.Transaction
  unfolding trim_text parse_asset_input starts_with
  build_payment account (payment p) passphrase = build_payment_intent account p passphrase
  build_payment account other passphrase = refuse ("expected payment intent, got " <> type_of other)

  -- `intent.limit && parseFloat(intent.limit) >= 0 ? intent.limit : undefined`
  abbrev pub limit_of : Option String → Option String
  limit_of none = none
  limit_of (some limit) =
      if is_truthy limit
        && not (F.is_nan (F.parse_float limit))
        && not (F.lt (F.parse_float limit) F.zero)
      then some limit
      else none

  abbrev pub build_trustline_intent : S.Account → TrustlineIntent → String → Result S.Transaction
  build_trustline_intent account t passphrase =
      if not (is_truthy t.asset_code) || ltb (js_length t.asset_code) 1
      then refuse "assetCode required"
      else if str_eq t.asset_code "XLM"
      then refuse "XLM is native and cannot be used as a trustline"
      else if not (is_truthy t.issuer) || not (starts_with t.issuer "G")
      then refuse "issuer must be a valid Stellar account"
      else bind (S.new_asset t.asset_code t.issuer) (λ asset.
        bind (S.change_trust asset (limit_of t.limit))
          (λ operation. assemble account passphrase t.reason operation))

  -- `buildTrustline`
  unfoldable pub build_trustline : S.Account → AgentIntent → String → Result S.Transaction
  unfolding js_length starts_with
  build_trustline account (trustline t) passphrase = build_trustline_intent account t passphrase
  build_trustline account other passphrase =
      refuse ("expected trustline intent, got " <> type_of other)
