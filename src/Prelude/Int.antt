-- ===== src/Prelude/Int.antt =====
-- Go's signed `int`, for the arguments that may be negative.
use Prim.Native.Nat.{ℕ}
use mathlib.Core.Bool.{Bool, true}
use aelora.Prelude.Tests.{eqb}

-- `negsuc n` is -(n + 1).
pub data ℤ : Type 0 where
  pos : ℕ → ℤ
  negsuc : ℕ → ℤ

-- `v <= 0`
abbrev pub is_nonpos : ℤ → Bool
is_nonpos (pos n) = eqb n 0
is_nonpos (negsuc n) = true

-- The value of an integer that is at least 0.
abbrev pub to_nat : ℤ → ℕ
to_nat (pos n) = n
to_nat (negsuc n) = 0
