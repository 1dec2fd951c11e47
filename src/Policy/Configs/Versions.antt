-- ===== src/Policy/Configs/Versions.antt =====
-- What both stores of policy configurations (packages/database/src/in-memory-policy-config-store.ts,
-- policy-config-store.ts) hold after a series of upserts.
use evergent.Base.{
  ℕ, suc, List, [], ◌∷◌, ◌++◌, Option, none, some, String, ◌≡◌, refl, sym, ap, subst, ◌∙◌,
  if◌then◌else◌, or_else, str_eq, eq_iff, arith, inl, inr, Bool-cases,
}
use evergent.Base.StringMap.{get}
use evergent.Shared.{PolicyRules}
use evergent.Policy.Configs.{
  Metadata, get_with_metadata, ConfigRow, select_config, update_configs, parsed_metadata,
  find_with_metadata, inserted, upsert_found, upsert_config,
}
use evergent.Policy.Configs.History.{
  Upsert, next_version, after_upsert, history, upsert_all, upsert_all_rows, get_with_metadata_lem,
  after_upsert_self, after_upsert_other, upsert_all-shown,
}

-- What the statements do to the row of every agent.
module _ {Json : Type 0} where
  select_config-append :
      (j : String) (t : List (ConfigRow Json)) (new : ConfigRow Json)
      → select_config j (t ++ (new ∷ []))
        ≡ or_else (select_config j t) (if str_eq new.agent_id j then some new else none)
  unfolding select_config
  select_config-append j [] new = refl
  select_config-append j (row ∷ t) new = ground (arith, select_config-append j t new)

  abbrev revised : Json → String → ℕ → ℕ → Option (ConfigRow Json) → Option (ConfigRow Json)
  revised json owner_id version now none = none
  revised json owner_id version now (some row) =
      some
        (record row { rules_json = json; owner_id = owner_id; version = version; updated_at = now })

  select_config-update :
      (j a : String) (json : Json) (owner_id : String) (version now : ℕ) (t : List (ConfigRow Json))
      → select_config j (update_configs a json owner_id version now t) ≡ (
          if str_eq a j
          then revised json owner_id version now (select_config j t)
          else select_config j t)
  unfolding select_config update_configs
  select_config-update j a json owner_id version now [] = ground arith
  select_config-update j a json owner_id version now (row ∷ t) = ground (
    arith,
    select_config-update j a json owner_id version now t,
    eq_iff row.agent_id a,
    eq_iff row.agent_id j,
    eq_iff a j,
  )

abbrev parsed_with : ℕ → ℕ → Option PolicyRules → Option Metadata
parsed_with version updated_at none = none
parsed_with version updated_at (some rules) =
    some (record { rules = rules; version = version; updated_at = updated_at })

or_else-none {ℓ} : {A : Type ℓ} (o : Option A) → or_else o none ≡ o
or_else-none none = refl
or_else-none (some a) = refl

module _ {Json : Type 0} (stringify : PolicyRules → Json) (parse : Json → Option PolicyRules)
    (parse-stringify : (r : PolicyRules) → parse (stringify r) ≡ some r) where
  abbrev read : Option (ConfigRow Json) → Option Metadata
  read none = none
  read (some row) = parsed_metadata stringify parse row

  find_with_metadata_lem :
      (j : String) (t : List (ConfigRow Json))
      → find_with_metadata stringify parse j t ≡ read (select_config j t)
  unfolding find_with_metadata
  find_with_metadata_lem j t = ground arith

  -- A row that stands for what is known.
  abbrev Agrees : Option (ConfigRow Json) → Option Metadata → Type 0
  Agrees none none = Unit
  Agrees none (some m) = ⊥
  Agrees (some row) none = ⊥
  Agrees (some row) (some m) =
      (parse row.rules_json ≡ some m.rules)
      × (row.version ≡ m.version)
      × (row.updated_at ≡ m.updated_at)

  Agrees-read : (o : Option (ConfigRow Json)) (m : Option Metadata) → Agrees o m → read o ≡ m
  Agrees-read none none h = refl
  Agrees-read none (some m) h = absurd h
  Agrees-read (some row) none h = absurd h
  Agrees-read (some row) (some m) (rules, version, updated_at) =
      ap (parsed_with row.version row.updated_at) rules
      ∙ ap (λ n. parsed_with n row.updated_at (some m.rules)) version
      ∙ ap (λ t. parsed_with m.version t (some m.rules)) updated_at

  Agrees-by :
      (o o' : Option (ConfigRow Json)) (m m' : Option Metadata)
      → o ≡ o'
      → m ≡ m'
      → Agrees o' m'
      → Agrees o m
  Agrees-by o o' m m' e f h = subst (λ x. Agrees x m) (sym e) (subst (λ y. Agrees o' y) (sym f) h)

  first_version : (m : Option Metadata) → Agrees none m → 1 ≡ next_version m
  first_version none h = refl
  first_version (some m) h = absurd h

  later_version :
      (row : ConfigRow Json) (m : Option Metadata)
      → Agrees (some row) m
      → suc row.version ≡ next_version m
  later_version row none h = absurd h
  later_version row (some m) (rules, version, updated_at) = ap suc version

  abbrev IsTabled : List (ConfigRow Json) → (String → Option Metadata) → Type 0
  IsTabled t v = (j : String) → Agrees (select_config j t) (v j)

  upsert_found-IsTabled :
      (u : Upsert) (v : String → Option Metadata) (t : List (ConfigRow Json))
      (o : Option (ConfigRow Json))
      → select_config u.agent_id t ≡ o
      → IsTabled t v
      → Agrees o (v u.agent_id)
      → IsTabled
          (upsert_found stringify parse u.now u.agent_id u.owner_id u.rules o t).0
          (after_upsert u v)
  upsert_found-IsTabled u v t none at h first j =
      let new = inserted stringify parse u.now u.agent_id u.owner_id u.rules in
      let here = select_config-append j t new in
      elim (Bool-cases (str_eq u.agent_id j)) [
        | inl same ↦
            let absent = ap (λ i. select_config i t) (sym ((eq_iff u.agent_id j).0 same)) ∙ at in
            Agrees-by _ (some new) _ _
              (here
                ∙ ap (λ o. or_else o (if str_eq u.agent_id j then some new else none)) absent
                ∙ ap (λ b. if b then some new else none) same)
              (after_upsert_self u v j same)
              (parse-stringify u.rules, first_version (v u.agent_id) first, refl)
        | inr other ↦
            Agrees-by _ (select_config j t) _ _
              (here
                ∙ ap (λ b. or_else (select_config j t) (if b then some new else none)) other
                ∙ or_else-none (select_config j t))
              (after_upsert_other u v j other) (h j)
      ]
  upsert_found-IsTabled u v t (some row) at h later j =
      let here =
        select_config-update j u.agent_id (stringify u.rules) u.owner_id (suc row.version) u.now
          t in
      let revise = revised (stringify u.rules) u.owner_id (suc row.version) u.now in
      elim (Bool-cases (str_eq u.agent_id j)) [
        | inl same ↦
            let found = ap (λ i. select_config i t) (sym ((eq_iff u.agent_id j).0 same)) ∙ at in
            Agrees-by _ (revise (some row)) _ _
              (here
                ∙ ap (λ b. if b then revise (select_config j t) else select_config j t) same
                ∙ ap revise found)
              (after_upsert_self u v j same)
              (parse-stringify u.rules, later_version row (v u.agent_id) later, refl)
        | inr other ↦
            Agrees-by _ (select_config j t) _ _
              (here ∙ ap (λ b. if b then revise (select_config j t) else select_config j t) other)
              (after_upsert_other u v j other) (h j)
      ]

  upsert_all_rows-IsTabled :
      (us : List Upsert) (v : String → Option Metadata) (t : List (ConfigRow Json))
      → IsTabled t v
      → IsTabled (upsert_all_rows stringify parse us t) (history us v)
  unfolding upsert_config
  upsert_all_rows-IsTabled [] v t h = h
  upsert_all_rows-IsTabled (u ∷ us) v t h =
      upsert_all_rows-IsTabled us (after_upsert u v) _
        (upsert_found-IsTabled u v t (select_config u.agent_id t) refl h (h u.agent_id))

  -- After a series of upserts into an empty store, the one in memory and the one on SQLite both give
  -- for every agent the rules and the time of its latest upsert, and for version the number of its
  -- upserts, provided that rules are parsed back from their JSON text.
  pub versions_refine :
      (us : List Upsert) (agent_id : String)
      → (get_with_metadata agent_id (upsert_all us []) ≡ history us (λ j. none) agent_id)
        × (find_with_metadata stringify parse agent_id (upsert_all_rows stringify parse us [])
            ≡ history us (λ j. none) agent_id)
  unfolding get select_config
  versions_refine us agent_id = (
    get_with_metadata_lem agent_id (upsert_all us [])
        ∙ upsert_all-shown us (λ j. none) [] (λ j. refl) agent_id,
    find_with_metadata_lem agent_id (upsert_all_rows stringify parse us [])
        ∙ Agrees-read _ _ (upsert_all_rows-IsTabled us (λ j. none) [] (λ j. tt) agent_id),
  )
