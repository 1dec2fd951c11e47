-- ===== src/Tests/ConfigTests.antt =====
-- The validation of rules, the stores of policies, and the intents of request bodies.
use evergent.Base.{◌≡◌, refl, true, false, not, [], ◌∷◌, none, some, List}
use evergent.Base.Json.{string, object, Fields, end, field}
use evergent.Base.Result.{ok}
use evergent.Base.Text.{js_length, starts_with, trim_text}
use evergent.Shared.{AgentIntent, trustline}
use evergent.Policy.Validation.Accepted.{accepted}
use evergent.Policy.Configs.{get_with_metadata, find_with_metadata}
use evergent.Policy.Configs.Versions.{versions_refine}
use evergent.Policy.Configs.History.{Upsert, upsert_all, upsert_all_rows, history}
use evergent.Server.Requests.{parse_intent}
use evergent.Server.Requests.Intents.{to_json, parse_intent-to_json}
use evergent.Tests.Samples.{whole, nan, open_rules, parse_whole}

abbrev limits : Fields
limits =
    field "maxTxAmount" (object (field "XLM" (string "100") end))
      (field "dailySpendingLimit" (object (field "XLM" (string "0") end)) end)

-- A daily limit of zero is accepted, and a maximum of zero is not.
limits_test :
    (accepted whole (λ x. not (nan x)) (λ v. "{}") (λ n. "0") limits ≡ true)
    × (accepted whole
          (λ x. not (nan x))
          (λ v. "{}")
          (λ n. "0")
          (field "maxTxAmount" (object (field "XLM" (string "0") end)) end)
        ≡ false)
unfolding parse_whole
limits_test = (refl, refl)

abbrev upserts : List Upsert
upserts =
    record { now = 1; agent_id = "a1"; owner_id = "ann"; rules = open_rules }
    ∷ record { now = 2; agent_id = "a1"; owner_id = "ann"; rules = open_rules }
    ∷ []

versions_refine_example :
    (get_with_metadata "a1" (upsert_all upserts []) ≡ history upserts (λ j. none) "a1")
    × (find_with_metadata (λ r. r) some "a1" (upsert_all_rows (λ r. r) some upserts [])
        ≡ history upserts (λ j. none) "a1")
versions_refine_example = versions_refine (λ r. r) some (λ r. refl) upserts "a1"

-- The second upsert has version 2.
history_test :
    history upserts (λ j. none) "a1"
    ≡ some (record { rules = open_rules; version = 2; updated_at = 2 })
history_test = refl

abbrev dollars : AgentIntent
dollars = trustline (record {
  asset_code = "USD";
  issuer = "GAAAAAAAAAAAAAAAAAAAAAAAAAAAAAAAAAAAAAAAAAAAAAAAAAAAAAAA";
  limit = some "100";
  reason = "rent";
})

parse_intent-to_json_example : parse_intent (to_json dollars) ≡ ok dollars
unfolding js_length starts_with trim_text
parse_intent-to_json_example = parse_intent-to_json dollars refl
