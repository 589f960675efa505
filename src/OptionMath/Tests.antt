-- ===== src/OptionMath/Tests.antt =====
-- Values of the pricing functions, and the theorems at them.
use tiger_swap.Prelude.{ℕ, ◌-◌, ◌*◌, ◌^◌, ◌≤◌, ◌≡◌, refl, true, false, ◌||◌, ◌⊎◌, inr, arith}
use tiger_swap.Prelude.Int.{ℤ, pos, ◌+ℤ◌, ◌-ℤ◌, ◌*ℤ◌}
use tiger_swap.OptionMath.{
  bind, wad, minus, quo, is_positive, is_negative, is_zero, absolute, opt_mul, opt_div, scale_up,
  scale_down, normalized, ln_series, opt_ln, exp_series, exp_shifted, opt_exp, opt_exp_neg, shrink,
  grow, inv_sqrt_loop, opt_inv_sqrt, opt_normal_pdf, as_terms, as_poly, clamped, upper_cdf,
  opt_normal_cdf,
}
use tiger_swap.OptionMath.Pricing.{
  moments, opt_d1_d2, intrinsic, premium, at_least, years, time_value, opt_black_scholes,
}
use tiger_swap.OptionMath.Bounds.{Covered, normal_cdf_symmetric, premium_covers_payoff}
use tiger_swap.OptionMath.Logarithm.{InRange, RoundedTo, normalized_mantissa}

-- Everything that a run unfolds.
unfoldable program : Unit {0}
unfolding bind quo is_positive is_negative is_zero absolute opt_mul opt_div scale_up scale_down
    normalized ln_series opt_ln exp_series exp_shifted opt_exp opt_exp_neg shrink grow inv_sqrt_loop
    opt_inv_sqrt opt_normal_pdf as_terms as_poly clamped upper_cdf opt_normal_cdf moments opt_d1_d2
    intrinsic premium at_least years time_value opt_black_scholes ◌+ℤ◌ ◌-ℤ◌ ◌*ℤ◌
program = tt

cdf_at_one : opt_normal_cdf (pos wad) ≡ inr (pos 841344740846523979)
unfolding program
cdf_at_one = refl

ln_of_two : opt_ln (pos (2 * wad)) ≡ inr (pos 693147180559945309)
unfolding program
ln_of_two = refl

at_the_money :
    opt_black_scholes
      (pos (2000 * wad))
      (pos (2000 * wad))
      (pos 31536000)
      (pos 50_000_000_000_000_000)
      (pos 800_000_000_000_000_000)
      true
    ≡ inr (pos 656419501613141138715)
unfolding program
at_the_money = refl

-- A little more than a half, so that the function is not symmetric at 0.
cdf_at_zero : opt_normal_cdf (pos 0) ≡ inr (pos 500000000524808671)
unfolding program
cdf_at_zero = refl

normal_cdf_symmetric_example :
    (u : ℕ) × (u ≤ wad)
    × (opt_normal_cdf (pos 501) ≡ inr (pos u))
    × (opt_normal_cdf (pos 0 -ℤ pos 501) ≡ inr (pos (wad - u)))
normal_cdf_symmetric_example = normal_cdf_symmetric 501 (omega arith)

normalized_mantissa_example :
    InRange (normalized 7).0
    × (((k : ℕ) × ((normalized 7).1 ≡ minus k) × ((normalized 7).0 ≡ 7 * 2 ^ k))
        ⊎ ((k : ℕ) × ((normalized 7).1 ≡ pos k) × RoundedTo 7 (normalized 7).0 k))
normalized_mantissa_example = normalized_mantissa 7 (omega arith)

-- Spot 110, strike 100, thirty days, rate 5%, volatility 80%.
abbrev rate : ℤ
rate = pos 50_000_000_000_000_000

abbrev volatility : ℤ
volatility = pos 800_000_000_000_000_000

premium_covers_payoff_example :
    Covered
      (time_value (pos 110) (pos 100) (years (pos 2592000)) rate volatility true)
      (intrinsic (pos 110) (pos 100) true)
      (opt_black_scholes (pos 110) (pos 100) (pos 2592000) rate volatility true)
    × ((is_zero (pos 2592000) || is_zero volatility ≡ false)
        ⊎ (opt_black_scholes (pos 110) (pos 100) (pos 2592000) rate volatility true
            ≡ inr (intrinsic (pos 110) (pos 100) true)))
unfolding is_positive
premium_covers_payoff_example =
    premium_covers_payoff (pos 110) (pos 100) (pos 2592000) rate volatility true refl refl
