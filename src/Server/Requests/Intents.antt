-- ===== src/Server/Requests/Intents.antt =====
-- The intents that `parseIntent` of apps/api/src/index.ts reads back from their JSON.
use evergent.Base.{
  Bool, true, false, not, ◌&&◌, Option, none, some, String, ◌≡◌, refl, ap, str_eq, arith,
  and-eq-true, subst, sym, eq_iff,
}
use evergent.Base.Json.{Json, null, string, object, Fields, end, field}
use evergent.Base.Result.{ok}
use evergent.Base.Text.{trim_text, is_truthy, js_length, starts_with}
use evergent.Shared.{
  PaymentAsset, PaymentIntent, TrustlineIntent, AgentIntent, payment, trustline, contract_call,
  account_settings,
}
use evergent.Server.Requests.{
  bind, is_asset_code, is_stellar_address, parse_intent, details_code, limit_text,
}

-- `JSON.stringify` leaves a field out that is undefined.
abbrev optional : String → Option String → Fields → Fields
optional k none rest = rest
optional k (some s) rest = field k (string s) rest

abbrev issuer_json : Option String → Json
issuer_json none = null
issuer_json (some s) = string s

abbrev details : Option PaymentAsset → Fields → Fields
details none rest = rest
details (some d) rest =
    field "assetDetails"
      (object (field "code" (string d.code) (field "issuer" (issuer_json d.issuer) end))) rest

-- The JSON value of an intent.
abbrev pub to_json : AgentIntent → Json
to_json (payment p) = object (
    field "type" (string "payment") (
      field "asset" (string p.asset) (
        details p.asset_details (
          field "destination" (string p.destination) (
            field "amount" (string p.amount)
              (field "reason" (string p.reason) (optional "memo" p.memo end)))))))
to_json (trustline t) = object (
    field "type" (string "trustline") (
      field "assetCode" (string t.asset_code) (
        field "issuer" (string t.issuer)
          (optional "limit" t.limit (field "reason" (string t.reason) end)))))
to_json (contract_call c) = object (field "type" (string "contract_call") end)
to_json (account_settings a) = object (field "type" (string "account_settings") end)

-- The details that are native, or of a code with the address of its issuer.
abbrev details_ok : String → Option String → Bool
details_ok code none = str_eq code "XLM"
details_ok code (some issuer) =
    is_asset_code code && not (str_eq code "XLM") && is_stellar_address issuer

abbrev asset_ok : Option PaymentAsset → Bool
asset_ok none = true
asset_ok (some d) = details_ok d.code d.issuer

abbrev limit_ok : Option String → Bool
limit_ok none = true
limit_ok (some s) = is_truthy (trim_text s)

-- The intents that the server accepts, as far as `parseIntent` checks them.
abbrev pub is_acceptable : AgentIntent → Bool
is_acceptable (payment p) = asset_ok p.asset_details
is_acceptable (trustline t) =
    is_asset_code t.asset_code
    && not (str_eq t.asset_code "XLM")
    && is_stellar_address t.issuer
    && limit_ok t.limit
is_acceptable (contract_call c) = false
is_acceptable (account_settings a) = false

not-true : (b : Bool) → not b ≡ true → b ≡ false
not-true false h = refl
not-true true h = sym h

details_parsed :
    (code : String) (issuer : Option String)
    → details_ok code issuer ≡ true
    → details_code (some code) (some (issuer_json issuer))
      ≡ ok (some (record { code = code; issuer = issuer }))
unfolding js_length starts_with
details_parsed code none h =
    subst (λ c. details_code (some c) (some null) ≡ ok (some (record { code = c; issuer = none })))
      (sym ((eq_iff code "XLM").0 h)) refl
details_parsed code (some issuer) h =
    let (both, address) =
      and-eq-true (is_asset_code code && not (str_eq code "XLM")) (is_stellar_address issuer) h in
    let (short, other) = and-eq-true (is_asset_code code) (not (str_eq code "XLM")) both in
    let foreign : str_eq code "XLM" ≡ false = not-true (str_eq code "XLM") other in
    rw short (rw foreign (rw address refl))

limit_parsed : (limit : Option String) → limit_ok limit ≡ true → limit_text limit ≡ limit
limit_parsed none h = refl
limit_parsed (some s) h = rw h refl

-- A payment of the given fields is read back, its details first.
payment_parsed :
    (asset destination amount reason : String) (given : Option PaymentAsset) (memo : Option String)
    → asset_ok given ≡ true
    → (let p : PaymentIntent = record {
      asset = asset;
      asset_details = given;
      destination = destination;
      amount = amount;
      reason = reason;
      memo = memo;
    } in
        parse_intent (to_json (payment p)) ≡ ok (payment p))
unfolding parse_intent js_length starts_with trim_text
payment_parsed asset destination amount reason none none h = refl
payment_parsed asset destination amount reason none (some m) h = refl
payment_parsed asset destination amount reason (some d) none h =
    ap
      (λ r. bind r (λ found. ok (
        payment (record {
          asset = asset;
          asset_details = found;
          destination = destination;
          amount = amount;
          reason = reason;
          memo = none;
        }))))
      (details_parsed d.code d.issuer h)
payment_parsed asset destination amount reason (some d) (some m) h =
    ap
      (λ r. bind r (λ found. ok (
        payment (record {
          asset = asset;
          asset_details = found;
          destination = destination;
          amount = amount;
          reason = reason;
          memo = some m;
        }))))
      (details_parsed d.code d.issuer h)

-- A trustline of the given fields is read back.
trustline_parsed :
    (code issuer reason : String) (limit : Option String)
    → is_asset_code code ≡ true
    → str_eq code "XLM" ≡ false
    → is_stellar_address issuer ≡ true
    → limit_ok limit ≡ true
    → (let t : TrustlineIntent = record {
      asset_code = code;
      issuer = issuer;
      limit = limit;
      reason = reason;
    } in
        parse_intent (to_json (trustline t)) ≡ ok (trustline t))
unfolding parse_intent js_length starts_with trim_text
trustline_parsed code issuer reason none short foreign address h =
    rw short (rw foreign (rw address refl))
trustline_parsed code issuer reason (some s) short foreign address h =
    rw short (rw foreign (rw address (rw h refl)))

-- A payment whose details, if it has any, are native, or a code of 1 to 12 units other than XLM with
-- the address of an issuer, and a trustline of such a code and issuer whose limit, if it has one, is
-- not blank, are read back from their JSON as they were: `parseIntent` refuses none of them and changes
-- no field.
pub parse_intent-to_json :
    (i : AgentIntent) → is_acceptable i ≡ true → parse_intent (to_json i) ≡ ok i
unfolding parse_intent js_length starts_with trim_text
parse_intent-to_json (payment p) h =
    payment_parsed p.asset p.destination p.amount p.reason p.asset_details p.memo h
parse_intent-to_json (trustline t) h =
    let (front, limit) =
      and-eq-true
        (is_asset_code t.asset_code
          && not (str_eq t.asset_code "XLM")
          && is_stellar_address t.issuer)
        (limit_ok t.limit) h in
    let (both, address) =
      and-eq-true (is_asset_code t.asset_code && not (str_eq t.asset_code "XLM"))
        (is_stellar_address t.issuer) front in
    let (short, other) =
      and-eq-true (is_asset_code t.asset_code) (not (str_eq t.asset_code "XLM")) both in
    trustline_parsed t.asset_code t.issuer t.reason t.limit short
      (not-true (str_eq t.asset_code "XLM") other) address limit
parse_intent-to_json (contract_call c) h = ground arith
parse_intent-to_json (account_settings a) h = ground arith
