-- ===== src/Policy/Allow.antt =====
-- When the policy engine allows an intent.
use evergent.Base.{
  ◌≡◌, refl, sym, subst, ◌∙◌, ◌≢◌, ◌↔◌, inl, inr, Option, none, some, String, arith, Option-cases,
  get_or_else,
}
use evergent.Base.Floats.{Floats}
use evergent.Shared.{
  AgentIntent, payment, trustline, contract_call, account_settings, PolicyRules, allow,
  PolicyDecision,
}
use evergent.Activity.{ActivityStore}
use evergent.Policy.Checks.{
  extract_amount, ◌or_next◌, check_type, check_assets, check_destination, check_contract,
  check_amount, check_max, check_threshold,
}
use evergent.Policy.Daily.{Evaluation}
use evergent.Policy.Engine.{before_spending, spending, evaluate_with_rules, all_passed}
use evergent.Policy.Compliance.{
  Holds, IsListed, IsPositive, IsWithinMax, IsBelowThreshold, IsCompliant, check_amount-none,
  check_max-none, check_threshold-none, check_type-none, check_assets-none, lists-none,
}
use evergent.Policy.Denials.{
  Denies, check_daily-Denies, before_spending-Denies, check_assets-Denies, check_destination-Denies,
  check_contract-Denies,
}

-- No decision means that neither part decides.
or_next-none : (c d : Option PolicyDecision) → (c or_next d) ≡ none → (c ≡ none) × (d ≡ none)
or_next-none none d h = (refl, h)
or_next-none (some c) d h = cc

both-none : (c d : Option PolicyDecision) → c ≡ none → d ≡ none → (c or_next d) ≡ none
both-none c d hc hd = rw hc hd

-- The decision behind the daily limit allows only if no check decides.
allowed-none :
    (d : Option PolicyDecision) (e : PolicyDecision)
    → ((x : PolicyDecision) → d ≡ some x → x.result ≢ allow)
    → (get_or_else d e).result ≡ allow
    → d ≡ none
allowed-none none e never h = refl
allowed-none (some x) e never h = absurd (never x refl h)

Denies-never :
    (d : Option PolicyDecision) → Denies d → (x : PolicyDecision) → d ≡ some x → x.result ≢ allow
Denies-never none h x e a = cc
Denies-never (some y) h x e a = cc

module _ (F : Floats) (rules : PolicyRules) (intent : AgentIntent) where
  threshold-never :
      (x : PolicyDecision) → check_threshold F rules intent ≡ some x → x.result ≢ allow
  unfolding check_threshold
  threshold-never x e a = elim (Option-cases (extract_amount intent)) [
    | inl gone ↦ let e' = (rw (gone, check_threshold) at e) in cc
    | inr (amount, at) ↦ let e' = (rw (at, check_threshold) at e) in ground (arith, e', a)
  ]

  or_next-never :
      (c d : Option PolicyDecision)
      → ((x : PolicyDecision) → c ≡ some x → x.result ≢ allow)
      → ((x : PolicyDecision) → d ≡ some x → x.result ≢ allow)
      → (x : PolicyDecision) → (c or_next d) ≡ some x
      → x.result ≢ allow
  or_next-never none d hc hd = hd
  or_next-never (some c) d hc hd = hc

  abbrev late_checks : Option PolicyDecision
  late_checks =
      check_threshold F rules intent
      or_next check_assets rules intent
      or_next check_destination rules intent
      or_next check_contract rules intent

  late_checks-never : (x : PolicyDecision) → late_checks ≡ some x → x.result ≢ allow
  late_checks-never = or_next-never _ _ threshold-never (
      or_next-never _ _ (Denies-never _ (check_assets-Denies rules intent)) (
        or_next-never _ _ (Denies-never _ (check_destination-Denies rules intent))
          (Denies-never _ (check_contract-Denies rules intent))))

  IsCompliant-of_none :
      before_spending F rules intent ≡ none → late_checks ≡ none → IsCompliant F rules intent
  IsCompliant-of_none early late =
      let (amount, rest) = or_next-none (check_amount F intent) _ early in
      let (kind, most) = or_next-none (check_type rules intent) _ rest in
      let (threshold, rest') = or_next-none (check_threshold F rules intent) _ late in
      let (asset, rest'') = or_next-none (check_assets rules intent) _ rest' in
      let (destination, contract) = or_next-none (check_destination rules intent) _ rest'' in
      record {
        positive = check_amount-none F intent amount;
        permitted = check_type-none rules intent kind;
        within_max = check_max-none F rules intent most;
        below_threshold = check_threshold-none F rules intent threshold;
        asset_listed = check_assets-none rules intent asset;
        listed = lists-none rules intent destination contract;
      }

  -- The other direction: an intent that keeps the rules passes every check.
  amount_passes : IsCompliant F rules intent → check_amount F intent ≡ none
  unfolding check_amount
  amount_passes c = elim (Option-cases (extract_amount intent)) [
    | inl e ↦ rw (e, check_amount) refl
    | inr (amount, e) ↦
        let fine = subst (Holds (IsPositive F)) e c.positive in
        rw (e, check_amount) (ground (arith, fine))
  ]

  max_passes : IsCompliant F rules intent → check_max F rules intent ≡ none
  unfolding check_max
  max_passes c = elim (Option-cases (extract_amount intent)) [
    | inl e ↦ rw (e, check_max) refl
    | inr (amount, e) ↦
        let fine = subst (Holds (IsWithinMax F rules intent)) e c.within_max in
        rw (e, check_max) (rw fine refl)
  ]

  threshold_passes : IsCompliant F rules intent → check_threshold F rules intent ≡ none
  unfolding check_threshold
  threshold_passes c = elim (Option-cases (extract_amount intent)) [
    | inl e ↦ rw (e, check_threshold) refl
    | inr (amount, e) ↦
        let fine = subst (Holds (IsBelowThreshold F rules)) e c.below_threshold in
        rw (e, check_threshold) (rw fine refl)
  ]

  early_passes : IsCompliant F rules intent → before_spending F rules intent ≡ none
  unfolding check_type
  early_passes c =
      both-none _ _ (amount_passes c)
        (both-none _ _ (rw (c.permitted, check_type) refl) (max_passes c))

lists_pass :
    (rules : PolicyRules) (intent : AgentIntent)
    → IsListed rules intent
    → (check_destination rules intent or_next check_contract rules intent) ≡ none
unfolding check_destination check_contract
lists_pass rules (payment p) h = rw h refl
lists_pass rules (contract_call k) h = rw h refl
lists_pass rules (trustline t) h = refl
lists_pass rules (account_settings a) h = refl

module _ (F : Floats) where
  late_passes :
      (rules : PolicyRules) (intent : AgentIntent)
      → IsCompliant F rules intent
      → late_checks F rules intent ≡ none
  unfolding check_assets
  late_passes rules intent c =
      both-none _ _ (threshold_passes F rules intent c)
        (both-none _ _ (rw (c.asset_listed, check_assets) refl) (lists_pass rules intent c.listed))

  spending-never :
      (rules : PolicyRules) (o : Evaluation) (intent : AgentIntent) (agent_id : String)
      (s : Option (ActivityStore F)) (x : PolicyDecision)
      → (spending F rules o intent agent_id s).1 ≡ some x
      → x.result ≢ allow
  spending-never rules o intent agent_id none x e a = cc
  spending-never rules o intent agent_id (some s) x e a =
      Denies-never _ (check_daily-Denies F rules o intent agent_id s) x e a

  -- The engine allows an intent exactly if the intent keeps every rule (a positive amount within the
  -- maximum and below the approval threshold, a permitted type, a listed asset and destination or
  -- contract) and the daily limit, checked or reserved, does not deny it.
  pub evaluate_with_rules-allow_iff :
      (rules : PolicyRules) (o : Evaluation) (intent : AgentIntent) (agent_id : String)
      (s : Option (ActivityStore F))
      → ((evaluate_with_rules F rules o intent agent_id s).1.result ≡ allow)
        ↔ (IsCompliant F rules intent × ((spending F rules o intent agent_id s).1 ≡ none))
  unfolding evaluate_with_rules
  evaluate_with_rules-allow_iff rules o intent agent_id s =
      elim (Option-cases (before_spending F rules intent)) [
        | inr (d, e) ↦ (
          λ h. absurd (
              Denies-never _ (before_spending-Denies F rules intent) d e
                (rw (e, evaluate_with_rules) at h)),
          λ c. let clash = sym e ∙ early_passes F rules intent c.0 in cc,
        )
        | inl e ↦ (
          λ h.
              let h' = (rw (e, evaluate_with_rules) at h) in
              let no_denial = allowed-none _ _ (spending-never rules o intent agent_id s) h' in
              let late =
                allowed-none (late_checks F rules intent) (all_passed intent)
                  (late_checks-never F rules intent) (rw no_denial at h') in
              (IsCompliant-of_none F rules intent e late, no_denial),
          λ c. rw (e, evaluate_with_rules) (rw c.1 (rw (late_passes rules intent c.0) refl)),
        )
      ]
