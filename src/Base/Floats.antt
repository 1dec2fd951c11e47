-- ===== src/Base/Floats.antt =====
-- JavaScript's numbers, as far as the policy uses them: a type with its operations and tests. A
-- statement takes them as a parameter.
use mathlib.Core.Bool.{Bool, false, not}
use Prim.Native.String.{String}
use Prim.Native.Nat.{ℕ}
use evergent.Base.Tests.{if◌then◌else◌}

pub record Floats : Type 1 where
  pub Float : Type 0
  pub parse_float : String → Float
  pub is_nan : Float → Bool
  pub lt : Float → Float → Bool
  pub add : Float → Float → Float
  pub sub : Float → Float → Float
  pub zero : Float
  -- `${x}` and `x.toFixed(n)`
  pub show : Float → String
  pub to_fixed : ℕ → Float → String

-- The sign of `compareAmounts`.
pub data Comparison : Type 0 where
  less same greater : Comparison

-- `a <= 0`
abbrev pub le_zero : (F : Floats) → F.Float → Bool
le_zero F a = if F.is_nan a then false else not (F.lt F.zero a)
