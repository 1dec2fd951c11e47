-- ===== src/Base/Result.antt =====
-- A call that returns a value or throws an error with a message.
use Prim.Native.String.{String}
use mathlib.Core.Path.{◌≡◌, refl}
use mathlib.Core.Logic.{◌⊎◌, inl, inr}

pub data Result {ℓ} (A : Type ℓ) : Type ℓ where
  ok : A → Result A
  error : String → Result A

module _ {ℓ} {A : Type ℓ} where
  pub Result-cases :
      (r : Result A) → ((a : A) × (r ≡ ok a)) ⊎ ((message : String) × (r ≡ error message))
  Result-cases (ok a) = inl (a, refl)
  Result-cases (error message) = inr (message, refl)
