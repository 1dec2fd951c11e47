-- ===== src/Tests/AuthTests.antt =====
-- The two providers with one configured key.
use evergent.Base.{◌++◌, ◌≡◌, [], ◌∷◌, some, String}
use evergent.Base.StringMap.{StringMap, get}
use evergent.Base.Text.{◌<>◌, codes}
use evergent.Shared.Auth.{AuthenticatedPrincipal, one, authenticate, DevAuthConfig}
use evergent.Shared.Auth.Keys.{Carries, authenticate_lem}

abbrev ann : AuthenticatedPrincipal
ann = record { subject = "ann@corp"; owner_id = "ann" }

abbrev api_keys : StringMap AuthenticatedPrincipal
api_keys = ("k1", ann) ∷ []

abbrev dev : DevAuthConfig
dev = record { default_owner_id = "dev"; api_keys = ("k1", "ann") ∷ [] }

authenticate_lem_example :
    ((p : AuthenticatedPrincipal)
      → authenticate api_keys (one "Bearer k1") ≡ some p
      → (v : String) × Carries (one "Bearer k1") v
        × ((k : String) × (codes v ≡ codes "Bearer " ++ codes k) × (get k api_keys ≡ some p)))
    × (authenticate api_keys (one ("Bearer " <> "k1")) ≡ get "k1" api_keys)
authenticate_lem_example = authenticate_lem api_keys (one "Bearer k1") "k1"
