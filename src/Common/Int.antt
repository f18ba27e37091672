-- ===== src/Common/Int.antt =====
-- The integers over the native numbers: `int` return values and error codes.
use Prim.Native.Nat.{ℕ, zero}
use mathlib.Core.Bool.{Bool, true, false}
use xyco.Common.Tests.{◌==◌}

-- `negsuc n` is -(n + 1).
pub data ℤ : Type 0 where
  pos : ℕ → ℤ
  negsuc : ℕ → ℤ

-- Equality of two codes.
abbrev pub eqb : ℤ → ℤ → Bool
eqb (pos m) (pos n) = m == n
eqb (negsuc m) (negsuc n) = m == n
eqb _ _ = false

abbrev pub is_minus_one : ℤ → Bool
is_minus_one (negsuc zero) = true
is_minus_one _ = false
