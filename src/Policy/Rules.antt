-- ===== src/Policy/Rules.antt =====
-- `normalizePolicyRules` of packages/policy/src/validation.ts: defaults for what a partial policy
-- leaves out.
pub mod Defaults
use evergent.Base.{
  Bool, true, false, List, [], ◌∷◌, Option, none, some, String, ◌≡◌, ◌∙◌, ◌⊎◌, or_else, get_or_else,
}
use evergent.Base.StringMap.{StringMap, set}
use evergent.Shared.{PolicyRules}

pub record PartialRules : Type 0 where
  pub max_tx_amount : Option (StringMap String)
  pub daily_spending_limit : Option (StringMap String)
  pub allowed_assets : Option (List String)
  pub allowed_destinations : Option (List String)
  pub allowed_contract_ids : Option (List String)
  pub tx_type_restrictions : Option (StringMap Bool)
  pub approval_threshold : Option String
  pub require_human_approval_for_amount_above : Option String

abbrev pub default_rules : PolicyRules
default_rules = record {
  max_tx_amount = ("XLM", "100") ∷ [];
  daily_spending_limit = ("XLM", "500") ∷ [];
  allowed_assets = "XLM" ∷ [];
  allowed_destinations = [];
  allowed_contract_ids = [];
  tx_type_restrictions =
      ("payment", true)
      ∷ ("trustline", true)
      ∷ ("contract_call", false)
      ∷ ("account_settings", false)
      ∷ [];
  approval_threshold = "50";
  require_human_approval_for_amount_above = "50";
}

-- `{ ...m, ...n }`
unfoldable pub spread {ℓ} : {V : Type ℓ} → StringMap V → StringMap V → StringMap V
unfolding set
spread m [] = m
spread m ((k, v) ∷ n) = spread (set k v m) n

-- `{ ...m, ...n }`, where `n` may be undefined
abbrev pub overlay {ℓ} : {V : Type ℓ} → StringMap V → Option (StringMap V) → StringMap V
overlay m none = m
overlay m (some n) = spread m n

-- `normalizePolicyRules`
unfoldable pub normalize_policy_rules : PartialRules → PolicyRules
unfolding spread
normalize_policy_rules p = record {
  max_tx_amount = overlay default_rules.max_tx_amount p.max_tx_amount;
  daily_spending_limit = overlay default_rules.daily_spending_limit p.daily_spending_limit;
  allowed_assets = get_or_else p.allowed_assets default_rules.allowed_assets;
  allowed_destinations = get_or_else p.allowed_destinations default_rules.allowed_destinations;
  allowed_contract_ids = get_or_else p.allowed_contract_ids default_rules.allowed_contract_ids;
  tx_type_restrictions = overlay default_rules.tx_type_restrictions p.tx_type_restrictions;
  approval_threshold =
      get_or_else (or_else p.approval_threshold p.require_human_approval_for_amount_above)
        default_rules.approval_threshold;
  require_human_approval_for_amount_above =
      get_or_else (or_else p.require_human_approval_for_amount_above p.approval_threshold)
        default_rules.require_human_approval_for_amount_above;
}
