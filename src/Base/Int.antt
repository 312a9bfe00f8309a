-- ===== src/Base/Int.antt =====
-- Signed arguments, such as a limit that is ignored unless it is positive.
use Prim.Native.Nat.{ℕ, zero, suc}
use Prim.Native.Nat.{◌<◌}
use mathlib.Core.Path.{◌≡◌}
use mathlib.Core.Bool.{Bool, true, false}
use native.Mathlib.Omega.{arith}

-- `negsuc n` is -(n + 1).
pub data ℤ : Type 0 where
  pos : ℕ → ℤ
  negsuc : ℕ → ℤ

-- `0 < z`
abbrev pub is_positive : ℤ → Bool
is_positive (pos zero) = false
is_positive (pos (suc n)) = true
is_positive (negsuc n) = false

-- The value of a non-negative integer.
abbrev pub to_nat : ℤ → ℕ
to_nat (pos n) = n
to_nat (negsuc n) = 0

pub is_positive→lt : (z : ℤ) → is_positive z ≡ true → 0 < to_nat z
is_positive→lt (pos zero) h = cc
is_positive→lt (pos (suc n)) h = omega arith
is_positive→lt (negsuc n) h = cc
