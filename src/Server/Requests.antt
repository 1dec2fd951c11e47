-- ===== src/Server/Requests.antt =====
-- What apps/api/src/index.ts reads of a request: the raw transactions that it refuses, the intent of a
-- body, and the ids in a path.
pub mod Intents
use evergent.Base.{
  Bool, true, false, not, ◌&&◌, ◌||◌, List, [], ◌∷◌, Option, none, some, String, if◌then◌else◌, ltb,
  leb, ◌==◌, str_eq, is_some,
}
use evergent.Base.Json.{Json, null, boolean, number, string, array, object, Fields, lookup}
use evergent.Base.Parse.{Codes, split, same_codes}
use evergent.Base.Result.{Result, ok, error}
use evergent.Base.Text.{◌<>◌, codes, js_length, starts_with, trim_text, is_truthy}
use evergent.Shared.{PaymentAsset, PaymentIntent, TrustlineIntent, AgentIntent, payment, trustline}

-- `typeof v === "string"`, with the string
abbrev pub text_of : Option Json → Option String
text_of (some (string s)) = some s
text_of other = none

abbrev pub is_array : Option Json → Bool
is_array (some (array items)) = true
is_array other = false

-- `isRawTransaction`
unfoldable pub is_raw_transaction : Json → Bool
is_raw_transaction (object b) =
    is_some (text_of (lookup "xdr" b))
    || is_some (text_of (lookup "envelope" b))
    || is_some (text_of (lookup "transaction" b))
    || is_array (lookup "operations" b)
    || is_some (text_of (lookup "tx_blob" b))
is_raw_transaction other = false

-- `v.k` of a value that is not null, where only an object has the key
abbrev pub member : String → Json → Option Json
member k (object fields) = lookup k fields
member k other = none

-- A text of 1 to 12 units
abbrev pub is_asset_code : String → Bool
is_asset_code s = not (ltb (js_length s) 1) && not (ltb 12 (js_length s))

-- A text of 56 units that starts with G
abbrev pub is_stellar_address : String → Bool
is_stellar_address s = starts_with s "G" && (js_length s == 56)

-- `issuer != null && issuer !== ""`
abbrev pub has_issuer : Option Json → Bool
has_issuer none = false
has_issuer (some null) = false
has_issuer (some (string s)) = not (str_eq s "")
has_issuer (some other) = true

abbrev pub details_issuer : String → Option String → Result (Option PaymentAsset)
details_issuer code none =
    error "payment.assetDetails.issuer must be a valid Stellar address (G...)"
details_issuer code (some issuer) =
    if not (is_stellar_address issuer)
    then error "payment.assetDetails.issuer must be a valid Stellar address (G...)"
    else ok (some (record { code = code; issuer = some issuer }))

abbrev pub details_code : Option String → Option Json → Result (Option PaymentAsset)
details_code none issuer =
    error "payment.assetDetails.code must be a Stellar asset code (1-12 characters)"
details_code (some code) issuer =
    if not (is_asset_code code)
    then error "payment.assetDetails.code must be a Stellar asset code (1-12 characters)"
    else if str_eq code "XLM"
    then (if has_issuer issuer
        then error "payment.assetDetails.issuer must be null for XLM"
        else ok (some (record { code = "XLM"; issuer = none })))
    else details_issuer code (text_of issuer)

-- The details of a payment, which may be missing.
abbrev pub parse_asset_details : Option Json → Result (Option PaymentAsset)
parse_asset_details none = ok none
parse_asset_details (some null) = error "Cannot read properties of null (reading 'code')"
parse_asset_details (some v) = details_code (text_of (member "code" v)) (member "issuer" v)

-- A field that must be a string.
abbrev pub required : String → Option String → Result String
required message none = error message
required message (some s) = ok s

abbrev pub bind {ℓ κ} : {A : Type ℓ} {B : Type κ} → Result A → (A → Result B) → Result B
bind (ok a) f = f a
bind (error message) f = error message

abbrev pub parse_payment : Fields → Result AgentIntent
parse_payment b = bind (required "payment.asset is required" (text_of (lookup "asset" b))) (λ asset.
    bind (required "payment.destination is required" (text_of (lookup "destination" b))) (λ to.
      bind (required "payment.amount is required as string" (text_of (lookup "amount" b)))
        (λ amount.
          bind (required "payment.reason is required" (text_of (lookup "reason" b))) (λ reason.
            bind (parse_asset_details (lookup "assetDetails" b)) (λ details. ok (
              payment (record {
                asset = asset;
                asset_details = details;
                destination = to;
                amount = amount;
                reason = reason;
                memo = text_of (lookup "memo" b);
              })))))))

abbrev pub limit_text : Option String → Option String
limit_text none = none
limit_text (some s) = if is_truthy (trim_text s) then some s else none

abbrev pub code_text : Option String → Result String
code_text none = error "trustline.assetCode must be a Stellar asset code (1-12 characters)"
code_text (some s) =
    if not (is_asset_code s)
    then error "trustline.assetCode must be a Stellar asset code (1-12 characters)"
    else if str_eq s "XLM"
    then error "XLM cannot be used as a trustline asset"
    else ok s

abbrev pub issuer_text : Option String → Result String
issuer_text none = error "trustline.issuer must be a valid Stellar address (G...)"
issuer_text (some s) =
    if not (is_stellar_address s)
    then error "trustline.issuer must be a valid Stellar address (G...)"
    else ok s

abbrev pub parse_trustline : Fields → Result AgentIntent
parse_trustline b = bind (code_text (text_of (lookup "assetCode" b))) (λ code.
    bind (issuer_text (text_of (lookup "issuer" b))) (λ issuer.
      bind (required "trustline.reason is required" (text_of (lookup "reason" b))) (λ reason. ok (
        trustline (record {
          asset_code = code;
          issuer = issuer;
          limit = limit_text (text_of (lookup "limit" b));
          reason = reason;
        })))))

abbrev pub parse_type : Option String → Fields → Result AgentIntent
parse_type none b = error "intent.type is required"
parse_type (some type) b =
    if str_eq type "payment"
    then parse_payment b
    else if str_eq type "trustline"
    then parse_trustline b
    else if str_eq type "contract_call" || str_eq type "account_settings"
    then error ("intent type '" <> type <> "' is not yet supported by the transaction pipeline")
    else error ("unknown intent type: " <> type)

-- `parseIntent`
unfoldable pub parse_intent : Json → Result AgentIntent
unfolding js_length starts_with trim_text
parse_intent (object b) = parse_type (text_of (lookup "type" b)) b
parse_intent (array items) = error "intent.type is required"
parse_intent other = error "intent must be an object"

-- `url.match(/^\/agents\/([^/]+)\/intents$/)?.[1]`: the part of a path between its second and its third
-- slash, where the other parts are as given
abbrev pub path_id : Codes → Codes → List Codes → Option Codes
path_id first last (p0 ∷ p1 ∷ id ∷ p3 ∷ []) =
    if same_codes p0 [] && same_codes p1 first && same_codes p3 last && not (same_codes id [])
    then some id
    else none
path_id first last other = none

-- `extractAgentId`
unfoldable pub extract_agent_id : String → Option Codes
unfolding split
extract_agent_id url = path_id (codes "agents") (codes "intents") (split b'/' (codes url))
