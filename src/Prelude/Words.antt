-- ===== src/Prelude/Words.antt =====
-- Machine integers of the LP64 targets, as bit patterns: an `int` is a number below 2 ^ 32, a
-- `long`, `time_t`, `size_t` or `uintptr_t` one below 2 ^ 64. Sums and differences wrap. Signed
-- overflow, which C leaves open, wraps too.
use Prim.Native.Nat.{ℕ, ◌+◌, ◌-◌, ◌%◌, ◌^◌, ◌<◌}
use mathlib.Core.Path.{◌≡◌}
use mathlib.Core.Bool.{Bool}
use native.Mathlib.Omega.{arith}
use memleax.Prelude.Tests.{ltb, if◌then◌else◌}

-- (int) x, of any integer type
abbrev pub int_of : ℕ → ℕ
int_of x = x % 2 ^ 32

-- (long) x of an int, by its sign
abbrev pub long_of : ℕ → ℕ
long_of x = if ltb x (2 ^ 31) then x else x + (2 ^ 64 - 2 ^ 32)

abbrev pub add32 : ℕ → ℕ → ℕ
add32 a b = (a + b) % 2 ^ 32

abbrev pub sub32 : ℕ → ℕ → ℕ
sub32 a b = (a + (2 ^ 32 - b % 2 ^ 32)) % 2 ^ 32

abbrev pub add64 : ℕ → ℕ → ℕ
add64 a b = (a + b) % 2 ^ 64

abbrev pub sub64 : ℕ → ℕ → ℕ
sub64 a b = (a + (2 ^ 64 - b % 2 ^ 64)) % 2 ^ 64

-- `<` of two ints, and of two longs, as signed numbers
abbrev pub slt32 : ℕ → ℕ → Bool
slt32 a b = ltb ((a + 2 ^ 31) % 2 ^ 32) ((b + 2 ^ 31) % 2 ^ 32)

abbrev pub slt64 : ℕ → ℕ → Bool
slt64 a b = ltb ((a + 2 ^ 63) % 2 ^ 64) ((b + 2 ^ 63) % 2 ^ 64)

-- -1 as an int
abbrev pub minus_one : ℕ
minus_one = 2 ^ 32 - 1

-- On numbers that are not negative the signed order is the order.
pub slt32-lt : (a b : ℕ) → a < 2 ^ 31 → b < 2 ^ 31 → slt32 a b ≡ ltb a b
slt32-lt a b h k = ground arith

pub slt64-lt : (a b : ℕ) → a < 2 ^ 63 → b < 2 ^ 63 → slt64 a b ≡ ltb a b
slt64-lt a b h k = ground arith
