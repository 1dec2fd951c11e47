-- ===== src/Shared/Auth.antt =====
-- packages/shared/src/auth.ts, production-auth.ts and dev-auth.ts: who a request comes from.
pub mod Keys
use evergent.Base.{ℕ, zero, suc, List, [], ◌∷◌, Option, none, some, String, ◌&&◌}
use evergent.Base.{if◌then◌else◌}
use evergent.Base.Text.{◌<>◌, is_truthy, starts_with}
use evergent.Base.StringMap.{StringMap, get}

pub record AuthenticatedPrincipal : Type 0 where
  pub subject : String
  pub owner_id : String

-- One header: absent, one value, or several.
pub data Header : Type 0 where
  undefined : Header
  one : String → Header
  many : List String → Header

abbrev head_or_none : List String → Option String
head_or_none [] = none
head_or_none (v ∷ vs) = some v

-- `Array.isArray(authHeader) ? authHeader[0] : authHeader`, with `undefined` for an absent or empty
-- header.
unfoldable pub header_value : Header → Option String
header_value undefined = none
header_value (one v) = some v
header_value (many vs) = head_or_none vs

-- `s.slice(n)`, over code points
abbrev pub slice_from : ℕ → String → String
slice_from zero s = s
slice_from (suc n) String.[] = String.[]
slice_from (suc n) (String.◌∷◌ c s) = slice_from n s

-- `s.slice(0, n)`, over code points
abbrev pub slice_to : ℕ → String → String
slice_to zero s = String.[]
slice_to (suc n) String.[] = String.[]
slice_to (suc n) (String.◌∷◌ c s) = String.◌∷◌ c (slice_to n s)

-- The key of a header `Bearer <key>`.
unfoldable pub bearer : Option String → Option String
unfolding starts_with
bearer none = none
bearer (some v) = if is_truthy v && starts_with v "Bearer " then some (slice_from 7 v) else none

-- `ProductionApiKeyAuthProvider.authenticate`, over the map of API keys
unfoldable pub authenticate :
    StringMap AuthenticatedPrincipal → Header → Option AuthenticatedPrincipal
unfolding header_value bearer
authenticate api_keys header = elim (bearer (header_value header)) [
  | none ↦ none
  | some key ↦ get key api_keys
]

pub record DevAuthConfig : Type 0 where
  pub default_owner_id : String
  pub api_keys : StringMap String

abbrev default_principal : DevAuthConfig → AuthenticatedPrincipal
default_principal config = record { subject = "dev-user"; owner_id = config.default_owner_id }

-- `DevAuthProvider.authenticate`
unfoldable pub dev_authenticate : DevAuthConfig → Header → AuthenticatedPrincipal
unfolding header_value bearer
dev_authenticate config header = elim (bearer (header_value header)) [
  | none ↦ default_principal config
  | some key ↦ elim (get key config.api_keys) [
    | none ↦ default_principal config
    | some owner_id ↦
        if is_truthy owner_id
        then record { subject = "apikey:" <> slice_to 8 key; owner_id = owner_id }
        else default_principal config
  ]
]
