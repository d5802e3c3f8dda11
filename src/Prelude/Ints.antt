-- ===== src/Prelude/Ints.antt =====
-- Signed integers over the native numbers, and decimal fractions with the tests of a float.
use Prim.Native.Nat.{ℕ, suc}
use mathlib.Core.Bool.{Bool, true, false}
use bscp_go.Prelude.Tests.{ltb, ◌==◌}

-- `negsuc n` is `- (n + 1)`.
pub data ℤ : Type 0 where
  pos negsuc : ℕ → ℤ

unfoldable pub is_zero : ℤ → Bool
is_zero (pos n) = n == 0
is_zero (negsuc n) = false

-- `x <= 0`
unfoldable pub not_positive : ℤ → Bool
not_positive (pos n) = n == 0
not_positive (negsuc n) = true

-- A `float64`: `ratio n d` is `n / (d + 1)`. A comparison with NaN is false.
pub data Float : Type 0 where
  ratio : ℤ → ℕ → Float
  infinite : Bool → Float  -- whether it is below 0
  nan : Float

-- `x <= 0`
unfoldable pub not_above_zero : Float → Bool
unfolding not_positive
not_above_zero (ratio n d) = not_positive n
not_above_zero (infinite negative) = negative
not_above_zero nan = false

-- `x > 1`
unfoldable pub above_one : Float → Bool
above_one (ratio (pos n) d) = ltb (suc d) n
above_one (ratio (negsuc n) d) = false
above_one (infinite true) = false
above_one (infinite false) = true
above_one nan = false
