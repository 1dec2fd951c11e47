-- ===== src/Policy/Rules/Defaults.antt =====
-- What a policy that was normalised permits where it does not say.
use evergent.Base.{
  Bool, false, [], ◌∷◌, Option, none, some, String, ◌≡◌, ◌≢◌, refl, ◌∙◌, inl, inr, Bool-cases,
  str_eq, eq_iff, arith,
}
use evergent.Base.Floats.{Floats}
use evergent.Base.StringMap.{StringMap, get, set, get-set_ne}
use evergent.Shared.{
  AgentIntent, contract_call, ContractCallIntent, account_settings, AccountSettingsIntent, type_of,
  deny, PolicyRules, PolicyDecision,
}
use evergent.Activity.{ActivityStore}
use evergent.Base.Text.{◌<>◌}
use evergent.Policy.Checks.{decide, check_amount, check_type, extract_amount}
use evergent.Policy.Daily.{Evaluation}
use evergent.Policy.Engine.{before_spending, evaluate_with_rules}
use evergent.Policy.Rules.{PartialRules, spread, overlay, default_rules, normalize_policy_rules}

module _ {ℓ} {V : Type ℓ} where
  get_missing :
      (k j : String) (v : V) (n : StringMap V)
      → get k ((j, v) ∷ n) ≡ none
      → (j ≢ k) × (get k n ≡ none)
  unfolding get
  get_missing k j v n h = elim (Bool-cases (str_eq j k)) [
    | inl here ↦ let no_way = (rw here at h) in cc
    | inr other ↦ ((λ e. ground (arith, other, e, eq_iff j k)), (rw other at h))
  ]

  get-spread : (k : String) (m n : StringMap V) → get k n ≡ none → get k (spread m n) ≡ get k m
  unfolding spread
  get-spread k m [] h = refl
  get-spread k m ((j, v) ∷ n) h =
      let (other, rest) = get_missing k j v n h in
      get-spread k (set j v m) n rest ∙ get-set_ne k j v m other

-- The policy does not say whether it permits intents of a type.
abbrev pub IsSilentOn : String → PartialRules → Type 0
IsSilentOn kind p = elim p.tx_type_restrictions [ none ↦ Unit | some n ↦ get kind n ≡ none ]

overlay_silent :
    (kind : String) (m : StringMap Bool) (o : Option (StringMap Bool))
    → elim o as (λ x. Type 0) [ none ↦ Unit | some n ↦ get kind n ≡ none ]
    → get kind (overlay m o) ≡ get kind m
overlay_silent kind m none h = refl
overlay_silent kind m (some n) h = get-spread kind m n h

module _ (F : Floats) where
  forbidden-denied :
      (rules : PolicyRules) (o : Evaluation) (intent : AgentIntent) (agent_id : String)
      (s : Option (ActivityStore F))
      → extract_amount intent ≡ none
      → get (type_of intent) rules.tx_type_restrictions ≡ some false
      → ((evaluate_with_rules F rules o intent agent_id s).0 ≡ s)
        × ((evaluate_with_rules F rules o intent agent_id s).1.result ≡ deny)
  unfolding evaluate_with_rules check_amount check_type
  forbidden-denied rules o intent agent_id s e h =
      let decides : (d : PolicyDecision) × (before_spending F rules intent ≡ some d)
          × (d.result ≡ deny) =
        (
          decide intent deny ("Transaction type '" <> type_of intent <> "' is not permitted")
              "txTypeRestrictions",
          rw (e, check_amount) (rw (h, check_type) refl),
          refl,
        ) in
      let (d, early, denies) = decides in rw (early, evaluate_with_rules) (refl, denies)

  -- An agent whose policy does not say so may neither call a contract nor change account settings:
  -- under the normalised policy the engine denies every such intent and changes nothing.
  pub normalize-denies :
      (p : PartialRules) (o : Evaluation) (call : ContractCallIntent)
      (change : AccountSettingsIntent) (agent_id : String) (s : Option (ActivityStore F))
      → IsSilentOn "contract_call" p
      → IsSilentOn "account_settings" p
      → (let r =
            evaluate_with_rules F (normalize_policy_rules p) o (contract_call call) agent_id s in
          (r.0 ≡ s) × (r.1.result ≡ deny))
        × (let r =
              evaluate_with_rules F
                (normalize_policy_rules p)
                o
                (account_settings change)
                agent_id
                s in
            (r.0 ≡ s) × (r.1.result ≡ deny))
  unfolding normalize_policy_rules extract_amount get
  normalize-denies p o call change agent_id s calls changes =
      let rules = normalize_policy_rules p in
      let known = default_rules.tx_type_restrictions in
      (
        forbidden-denied rules o (contract_call call) agent_id s refl
            (overlay_silent "contract_call" known p.tx_type_restrictions calls),
        forbidden-denied rules o (account_settings change) agent_id s refl
            (overlay_silent "account_settings" known p.tx_type_restrictions changes),
      )
