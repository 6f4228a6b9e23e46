-- ===== src/Common/Int64.antt =====
-- Go's int64 as its bit pattern, a number below 2^64; the upper half stands for negative values.
use Prim.Native.Nat.{ℕ, ◌+◌, ◌-◌, ◌%◌, ◌^◌, ◌<◌, ◌≤◌}
use mathlib.Core.Path.{◌≡◌, refl}
use mathlib.Core.Bool.{Bool, true}
use native.Mathlib.Omega.{arith}
use ts_restic_server.Common.Tests.{ltb}

abbrev pub modulus : ℕ
modulus = 2 ^ 64

abbrev pub half : ℕ
half = 2 ^ 63

unfoldable pub add64 : ℕ → ℕ → ℕ
add64 a b = (a + b) % modulus

unfoldable pub sub64 : ℕ → ℕ → ℕ
sub64 a b = (a + modulus - b) % modulus

-- The signed order: adding 2^63 maps it to the order of the patterns.
unfoldable pub lt64 : ℕ → ℕ → Bool
lt64 a b = ltb ((a + half) % modulus) ((b + half) % modulus)

pub add64_small : (a b : ℕ) → a + b < modulus → add64 a b ≡ a + b
unfolding add64
add64_small a b h = omega arith

pub sub64_small : (a b : ℕ) → a < modulus → b ≤ a → sub64 a b ≡ a - b
unfolding sub64
sub64_small a b h k = omega arith

pub lt64_small : (a b : ℕ) → a < half → b < half → lt64 a b ≡ ltb a b
unfolding lt64
lt64_small a b h k = ground arith

-- -1 < 0
lt64_negative : lt64 (sub64 0 1) 0 ≡ true
unfolding lt64 sub64
lt64_negative = refl
