-- ===== src/Amm/Slippage.antt =====
-- ApplySlippage never raises the amount.
use tiger_swap.Prelude.{
  ℕ, ◌≤◌, ◌≡◌, refl, some, false, arith, ◌==◌, if◌then◌else◌, inl, inr, Bool-cases,
}
use native.Mathlib.Nat.{mul-le-mul_left, div-le_of_le-mul}
use tiger_swap.Prelude.Int.{ℤ, pos, negsuc, positive, ◌≤ℤ◌}
use tiger_swap.Prelude.Word.{Float64, float_lt}
use tiger_swap.Amm.{bps, Floats, slippage_multiplier, scaled_down, apply_slippage}

-- Ten thousand less a float64 that is not below zero converts to at most ten thousand.
abbrev pub SubtractsDown : Floats → Type 0
SubtractsDown fl =
    (p : Float64)
    → float_lt p 0 ≡ false
    → fl.to_int (fl.float_sub fl.bps_float (fl.float_mul p fl.hundred)) ≤ℤ pos bps

not_below : (p : Float64) → float_lt (if float_lt p 0 then 0 else p) 0 ≡ false
not_below p = elim (Bool-cases (float_lt p 0)) [
  | inl negative ↦ rw negative (unfold float_lt in refl)
  | inr usual ↦ rw usual usual
]

multiplier-le :
    (fl : Floats) (percent : Float64) → SubtractsDown fl → slippage_multiplier fl percent ≤ℤ pos bps
unfolding slippage_multiplier
multiplier-le fl percent h = h (if float_lt percent 0 then 0 else percent) (not_below percent)

scaled_down-le :
    (amount : ℕ) (m : ℤ) → m ≤ℤ pos bps → scaled_down amount (positive (some m)) ≤ amount
unfolding scaled_down positive
scaled_down-le amount (negsuc n) h = omega arith
scaled_down-le amount (pos n) h = elim (Bool-cases (n == 0)) [
  | inl zero_left ↦ rw (zero_left, scaled_down) (omega arith)
  | inr some_left ↦
      rw (some_left, scaled_down) (div-le_of_le-mul bps (omega (arith, mul-le-mul_left amount h)))
]

-- The amount after slippage is never above the amount, whatever the percentage, negative ones included.
pub apply_slippage-le :
    (fl : Floats) (amount : ℕ) (percent : Float64)
    → SubtractsDown fl
    → apply_slippage fl amount percent ≤ amount
unfolding apply_slippage
apply_slippage-le fl amount percent h =
    scaled_down-le amount (slippage_multiplier fl percent) (multiplier-le fl percent h)
