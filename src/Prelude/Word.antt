-- ===== src/Prelude/Word.antt =====
-- Go's int64 sums, as bit patterns that wrap at 2^64, and its float64 values, as IEEE 754 bit
-- patterns. The comparisons are those of the standard; rounding arithmetic is a parameter.
use Prim.Native.Nat.{ℕ, ◌+◌, ◌-◌, ◌%◌, ◌<◌}
use mathlib.Core.Path.{◌≡◌}
use mathlib.Core.Bool.{Bool, not, ◌&&◌}
use native.Mathlib.Omega.{arith}
use tiger_swap.Prelude.Tests.{ltb, ◌==◌, if◌then◌else◌}
use tiger_swap.Prelude.Int.{ℤ, pos, negsuc}

abbrev pub word : ℕ
word = 0x1_0000_0000_0000_0000

-- One more than the largest int64.
abbrev pub half_word : ℕ
half_word = 0x8000_0000_0000_0000

unfoldable pub add64 : ℕ → ℕ → ℕ
add64 a b = (a + b) % word

unfoldable pub sub64 : ℕ → ℕ → ℕ
sub64 a b = (a + (word - b % word)) % word

-- The signed order of two patterns: flipping the sign bit makes it the unsigned order.
unfoldable pub slt64 : ℕ → ℕ → Bool
slt64 a b = ltb ((a + half_word) % word) ((b + half_word) % word)

-- A pattern that stands for a sum stays one under wrapping sums and differences.
pub add64-mod : (s n : ℕ) → add64 (s % word) n ≡ (s + n) % word
unfolding add64
add64-mod s n = omega arith

pub sub64-mod : (s n : ℕ) → n < s + 1 → sub64 (s % word) n ≡ (s - n) % word
unfolding sub64
sub64-mod s n h = omega arith

abbrev pub Float64 : Type 0
Float64 = ℕ

abbrev pub magnitude : Float64 → ℕ
magnitude x = x % half_word

abbrev pub infinity : Float64
infinity = 0x7ff0_0000_0000_0000

unfoldable pub is_nan : Float64 → Bool
is_nan x = ltb infinity (magnitude x)

unfoldable pub is_inf : Float64 → Bool
is_inf x = magnitude x == infinity

-- The order of two numbers that are not NaN, by sign and magnitude; the zeros are equal.
ordered_lt : Float64 → Float64 → Bool
ordered_lt a b =
    if ltb a half_word
    then ltb b half_word && ltb (magnitude a) (magnitude b)
    else if ltb b half_word
    then ltb 0 (magnitude a + magnitude b)
    else ltb (magnitude b) (magnitude a)

unfoldable pub float_lt : Float64 → Float64 → Bool
unfolding is_nan ordered_lt
float_lt a b = not (is_nan a) && not (is_nan b) && ordered_lt a b

unfoldable pub float_le : Float64 → Float64 → Bool
unfolding is_nan ordered_lt
float_le a b = not (is_nan a) && not (is_nan b) && not (ordered_lt b a)

-- float64(math.MaxInt64) and float64(math.MinInt64), which are 2^63 and -2^63.
abbrev pub max_int64_float : Float64
max_int64_float = 0x43e0_0000_0000_0000

abbrev pub min_int64_float : Float64
min_int64_float = 0xc3e0_0000_0000_0000

-- int64(x) of an integer; what does not fit becomes the least int64.
unfoldable pub to_int64 : ℤ → ℤ
to_int64 (pos n) = if ltb n half_word then pos n else negsuc (half_word - 1)
to_int64 (negsuc n) = if ltb n half_word then negsuc n else negsuc (half_word - 1)

-- The arithmetic of float64 that rounds: conversion of an int64 that is not negative, product,
-- quotient, and math.Round.
pub record FloatOps : Type 0 where
  pub of_int : ℕ → Float64
  pub mul : Float64 → Float64 → Float64
  pub div : Float64 → Float64 → Float64
  pub round : Float64 → ℤ
