-- ===== src/Base/Words.antt =====
-- The 64-bit integers of Go as bit patterns: a number below 2 ^ 64 each.
-- A pattern from 2 ^ 63 on stands for a negative `int`.
use Prim.Native.Nat.{ℕ, ◌+◌, ◌-◌, ◌*◌, ◌%◌, ◌^◌, ◌<◌}
use mathlib.Core.Path.{◌≡◌}
use mathlib.Core.Bool.{Bool}
use native.Mathlib.Omega.{arith}
use package.groundcover_go.Base.Tests.{ltb}

-- Addition, subtraction and product wrap around.
abbrev pub add64 : ℕ → ℕ → ℕ
add64 a b = (a + b) % 2 ^ 64

abbrev pub sub64 : ℕ → ℕ → ℕ
sub64 a b = (a + 2 ^ 64 - b) % 2 ^ 64

abbrev pub mul64 : ℕ → ℕ → ℕ
mul64 a b = a * b % 2 ^ 64

-- The signed order: moving both patterns by 2 ^ 63 makes it the order of numbers.
abbrev pub lt_int : ℕ → ℕ → Bool
lt_int a b = ltb ((a + 2 ^ 63) % 2 ^ 64) ((b + 2 ^ 63) % 2 ^ 64)

-- On patterns of non-negative integers the signed order is that of the numbers.
pub lt_int-ltb : (a b : ℕ) → a < 2 ^ 63 → b < 2 ^ 63 → lt_int a b ≡ ltb a b
lt_int-ltb a b h k = ground arith
