-- ===== src/Policy/Configs.antt =====
-- `InMemoryPolicyConfigStore` of packages/database/src/in-memory-policy-config-store.ts,
-- `SQLitePolicyConfigStore` of packages/database/src/policy-config-store.ts, whose SQL statements are
-- functions on the rows of the table `policy_configs`, and `getRules` of apps/api/src/index.ts.
pub mod History
pub mod Versions
use evergent.Base.{
  ℕ, suc, Bool, true, not, ◌&&◌, List, [], ◌∷◌, ◌++◌, Option, none, some, String, if◌then◌else◌,
  filterb, any, str_eq, is_some, get_or_else,
}
use evergent.Base.Result.{Result, ok, error}
use evergent.Base.StringMap.{StringMap, get, set, delete}
use evergent.Shared.{PolicyRules}
use evergent.Policy.Rules.{PartialRules, normalize_policy_rules}

pub record PolicyConfigEntry : Type 0 where
  pub owner_id : String
  pub rules : PolicyRules
  pub version : ℕ
  pub updated_at : ℕ
  pub created_at : ℕ

-- `{ rules, version, updatedAt }`
pub record Metadata : Type 0 where
  pub rules : PolicyRules
  pub version : ℕ
  pub updated_at : ℕ

abbrev pub Configs : Type 0
Configs = StringMap PolicyConfigEntry

unfoldable pub get_config : String → Configs → Option PolicyRules
get_config agent_id s = elim (get agent_id s) [ none ↦ none | some e ↦ some e.rules ]

unfoldable pub get_config_for_owner : String → String → Configs → Option PolicyRules
get_config_for_owner agent_id owner_id s = elim (get agent_id s) [
  | none ↦ none
  | some e ↦ if str_eq e.owner_id owner_id then some e.rules else none
]

abbrev pub metadata_of : PolicyConfigEntry → Metadata
metadata_of e = record { rules = e.rules; version = e.version; updated_at = e.updated_at }

unfoldable pub get_with_metadata : String → Configs → Option Metadata
get_with_metadata agent_id s = elim (get agent_id s) [ none ↦ none | some e ↦ some (metadata_of e) ]

-- `existing ? existing.version + 1 : 1`, and the entry that takes the place of another
abbrev pub renewed : ℕ → String → PolicyRules → Option PolicyConfigEntry → PolicyConfigEntry
renewed now owner_id rules none = record {
  owner_id = owner_id;
  rules = rules;
  version = 1;
  updated_at = now;
  created_at = now;
}
renewed now owner_id rules (some e) = record {
  owner_id = owner_id;
  rules = rules;
  version = suc e.version;
  updated_at = now;
  created_at = e.created_at;
}

unfoldable pub upsert : ℕ → String → String → PolicyRules → Configs → Configs × PolicyRules × ℕ
upsert now agent_id owner_id rules s =
    let entry = renewed now owner_id rules (get agent_id s) in
    (set agent_id entry s, rules, entry.version)

unfoldable pub delete_config : String → Configs → Configs × Bool
delete_config agent_id s = (delete agent_id s, is_some (get agent_id s))

unfoldable pub list_configs_by_owner : String → Configs → List (String × PolicyRules)
list_configs_by_owner owner_id [] = []
list_configs_by_owner owner_id ((agent_id, e) ∷ s) =
    let rest = list_configs_by_owner owner_id s in
    if str_eq e.owner_id owner_id then (agent_id, e.rules) ∷ rest else rest

-- A row; `Json` is the type of the JSON texts.
pub record ConfigRow (Json : Type 0) : Type 0 where
  pub agent_id : String
  pub owner_id : String
  pub rules_json : Json
  pub version : ℕ
  pub created_at : ℕ
  pub updated_at : ℕ

module _ {Json : Type 0} where
  abbrev pub is_for : String → ConfigRow Json → Bool
  is_for agent_id row = str_eq row.agent_id agent_id

  -- `SELECT ... FROM policy_configs WHERE agent_id = ?`
  unfoldable pub select_config : String → List (ConfigRow Json) → Option (ConfigRow Json)
  select_config agent_id [] = none
  select_config agent_id (row ∷ t) =
      if is_for agent_id row then some row else select_config agent_id t

  -- `UPDATE policy_configs SET rules_json, owner_id, version, updated_at WHERE agent_id = ?`
  unfoldable pub update_configs :
      String → Json → String → ℕ → ℕ → List (ConfigRow Json) → List (ConfigRow Json)
  update_configs agent_id json owner_id version now [] = []
  update_configs agent_id json owner_id version now (row ∷ t) =
      (if is_for agent_id row
        then record row {
          rules_json = json;
          owner_id = owner_id;
          version = version;
          updated_at = now;
        }
        else row)
      ∷ update_configs agent_id json owner_id version now t

  unfoldable pub remove_config : String → List (ConfigRow Json) → List (ConfigRow Json) × Bool
  remove_config agent_id t = (filterb (λ row. not (is_for agent_id row)) t, any (is_for agent_id) t)

-- `JSON.stringify`, and `JSON.parse`, which may throw.
module _ {Json : Type 0} (stringify : PolicyRules → Json) (parse : Json → Option PolicyRules) where
  abbrev pub parsed_metadata : ConfigRow Json → Option Metadata
  parsed_metadata row = elim (parse row.rules_json) [
    | none ↦ none
    | some rules ↦
        some (record { rules = rules; version = row.version; updated_at = row.updated_at })
  ]

  unfoldable pub find_config : String → List (ConfigRow Json) → Option PolicyRules
  unfolding select_config
  find_config agent_id t = elim (select_config agent_id t) [
    | none ↦ none
    | some row ↦ parse row.rules_json
  ]

  unfoldable pub find_with_metadata : String → List (ConfigRow Json) → Option Metadata
  unfolding select_config
  find_with_metadata agent_id t = elim (select_config agent_id t) [
    | none ↦ none
    | some row ↦ parsed_metadata row
  ]

  abbrev pub inserted : ℕ → String → String → PolicyRules → ConfigRow Json
  inserted now agent_id owner_id rules = record {
    agent_id = agent_id;
    owner_id = owner_id;
    rules_json = stringify rules;
    version = 1;
    created_at = now;
    updated_at = now;
  }

  -- `upsert`, after the version has been selected
  abbrev pub upsert_found :
      ℕ
      → String
      → String
      → PolicyRules
      → Option (ConfigRow Json)
      → List (ConfigRow Json)
      → List (ConfigRow Json) × PolicyRules × ℕ
  upsert_found now agent_id owner_id rules none t =
      (t ++ (inserted now agent_id owner_id rules ∷ []), rules, 1)
  upsert_found now agent_id owner_id rules (some row) t = (
    update_configs agent_id (stringify rules) owner_id (suc row.version) now t,
    rules,
    suc row.version,
  )

  unfoldable pub upsert_config :
      ℕ
      → String
      → String
      → PolicyRules
      → List (ConfigRow Json)
      → List (ConfigRow Json) × PolicyRules × ℕ
  unfolding select_config update_configs
  upsert_config now agent_id owner_id rules t =
      upsert_found now agent_id owner_id rules (select_config agent_id t) t

-- `getRules`: an agent's own policy, or the server's over the defaults
unfoldable pub get_rules : PartialRules → Configs → String → PolicyRules
unfolding get_config normalize_policy_rules
get_rules options s agent_id = get_or_else (get_config agent_id s) (normalize_policy_rules options)
