-- ===== src/Policy/Configs/History.antt =====
-- Series of upserts into the stores of policy configurations
-- (packages/database/src/in-memory-policy-config-store.ts, policy-config-store.ts).
use evergent.Base.{
  ℕ, suc, true, false, List, [], ◌∷◌, Option, none, some, String, ◌≡◌, refl, sym, ap, ◌∙◌,
  if◌then◌else◌, str_eq, eq_iff, arith, inl, inr, Bool-cases,
}
use evergent.Base.StringMap.{get, get-set}
use evergent.Shared.{PolicyRules}
use evergent.Policy.Configs.{
  PolicyConfigEntry, Metadata, Configs, metadata_of, get_with_metadata, renewed, upsert, ConfigRow,
  upsert_config,
}

-- One call of `upsert`.
pub record Upsert : Type 0 where
  pub now : ℕ
  pub agent_id : String
  pub owner_id : String
  pub rules : PolicyRules

-- The version after the last: a first upsert gives 1.
abbrev pub next_version : Option Metadata → ℕ
next_version none = 1
next_version (some m) = suc m.version

abbrev pub renewal : Upsert → Option Metadata → Metadata
renewal u o = record { rules = u.rules; version = next_version o; updated_at = u.now }

-- What is known of an agent after a series of upserts, the latest of which comes last.
abbrev pub after_upsert : Upsert → (String → Option Metadata) → String → Option Metadata
after_upsert u v j = if str_eq u.agent_id j then some (renewal u (v j)) else v j

abbrev pub history : List Upsert → (String → Option Metadata) → String → Option Metadata
history [] v = v
history (u ∷ us) v = history us (after_upsert u v)

abbrev pub upsert_all : List Upsert → Configs → Configs
upsert_all [] s = s
upsert_all (u ∷ us) s = upsert_all us (upsert u.now u.agent_id u.owner_id u.rules s).0

module _ {Json : Type 0} (stringify : PolicyRules → Json) (parse : Json → Option PolicyRules) where
  abbrev pub upsert_all_rows : List Upsert → List (ConfigRow Json) → List (ConfigRow Json)
  upsert_all_rows [] t = t
  upsert_all_rows (u ∷ us) t =
      upsert_all_rows us (upsert_config stringify parse u.now u.agent_id u.owner_id u.rules t).0

abbrev shown : Option PolicyConfigEntry → Option Metadata
shown none = none
shown (some e) = some (metadata_of e)

pub get_with_metadata_lem : (j : String) (s : Configs) → get_with_metadata j s ≡ shown (get j s)
unfolding get_with_metadata
get_with_metadata_lem j s = ground arith

renewed-metadata :
    (u : Upsert) (o : Option PolicyConfigEntry)
    → metadata_of (renewed u.now u.owner_id u.rules o) ≡ renewal u (shown o)
renewed-metadata u none = refl
renewed-metadata u (some e) = refl

pub after_upsert_self :
    (u : Upsert) (v : String → Option Metadata) (j : String)
    → str_eq u.agent_id j ≡ true
    → after_upsert u v j ≡ some (renewal u (v u.agent_id))
after_upsert_self u v j same =
    ap (λ b. if b then some (renewal u (v j)) else v j) same
    ∙ ap (λ i. some (renewal u (v i))) (sym ((eq_iff u.agent_id j).0 same))

pub after_upsert_other :
    (u : Upsert) (v : String → Option Metadata) (j : String)
    → str_eq u.agent_id j ≡ false
    → after_upsert u v j ≡ v j
after_upsert_other u v j other = ap (λ b. if b then some (renewal u (v j)) else v j) other

-- The store in memory shows what is known.
upsert-shown :
    (u : Upsert) (v : String → Option Metadata) (s : Configs)
    → ((j : String) → shown (get j s) ≡ v j)
    → (j : String)
    → shown (get j (upsert u.now u.agent_id u.owner_id u.rules s).0) ≡ after_upsert u v j
unfolding upsert
upsert-shown u v s h j =
    let entry = renewed u.now u.owner_id u.rules (get u.agent_id s) in
    let at = get-set j u.agent_id entry s in
    elim (Bool-cases (str_eq u.agent_id j)) [
      | inl same ↦
          ap shown (at ∙ ap (λ b. if b then some entry else get j s) same)
          ∙ ap some (renewed-metadata u (get u.agent_id s))
          ∙ ap (λ o. some (renewal u o)) (h u.agent_id)
          ∙ sym (after_upsert_self u v j same)
      | inr other ↦
          ap shown (at ∙ ap (λ b. if b then some entry else get j s) other)
          ∙ h j
          ∙ sym (after_upsert_other u v j other)
    ]

pub upsert_all-shown :
    (us : List Upsert) (v : String → Option Metadata) (s : Configs)
    → ((j : String) → shown (get j s) ≡ v j)
    → (j : String) → shown (get j (upsert_all us s)) ≡ history us v j
upsert_all-shown [] v s h = h
upsert_all-shown (u ∷ us) v s h =
    upsert_all-shown us (after_upsert u v) (upsert u.now u.agent_id u.owner_id u.rules s).0
      (upsert-shown u v s h)
