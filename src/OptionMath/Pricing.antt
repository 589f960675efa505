-- ===== src/OptionMath/Pricing.antt =====
-- optD1D2, optBlackScholes and optGreeks of option_math.go.
use tiger_swap.Prelude.{◌*◌, Bool, ◌||◌, ◌⊎◌, inl, inr, if◌then◌else◌, not}
use tiger_swap.Prelude.Int.{ℤ, pos, ◌+ℤ◌, ◌-ℤ◌, ◌*ℤ◌, ltb_ℤ}
use tiger_swap.OptionMath.{
  MathError, zero_denominator, invalid_inputs, divided_by_zero, bind, wad, wad_sq, year_seconds,
  quo, is_positive, is_negative, is_zero, opt_mul, opt_div, opt_ln, opt_exp_neg, opt_inv_sqrt,
  opt_normal_pdf, opt_normal_cdf,
}

-- d1, d2 and sigma*sqrt(T).
pub record Moments : Type 0 where
  pub d1 : ℤ
  pub d2 : ℤ
  pub sigma_sqrt_t : ℤ

-- The end of optD1D2, with ln(spot / strike) and 1 / sqrt(1 / T) at hand.
unfoldable pub moments : ℤ → ℤ → ℤ → ℤ → ℤ → MathError ⊎ Moments
moments ln_moneyness inv_sqrt_t t rate volatility =
    let half = quo (volatility *ℤ volatility) (pos (2 * wad)) in
    let numerator = ln_moneyness +ℤ opt_mul (rate +ℤ half) t in
    let sigma_sqrt_t = opt_mul volatility inv_sqrt_t in
    let d1 = opt_div numerator sigma_sqrt_t in
    if is_positive sigma_sqrt_t
    then inr (record { d1 = d1; d2 = d1 -ℤ sigma_sqrt_t; sigma_sqrt_t = sigma_sqrt_t })
    else inl zero_denominator

unfoldable pub opt_d1_d2 : ℤ → ℤ → ℤ → ℤ → ℤ → MathError ⊎ Moments
opt_d1_d2 spot strike t rate volatility = bind (opt_ln (opt_div spot strike)) (λ ln_moneyness.
    bind (opt_inv_sqrt (quo (pos wad_sq) t))
      (λ inv_sqrt_t. moments ln_moneyness inv_sqrt_t t rate volatility))

-- The payoff at once, not below 0.
unfoldable pub intrinsic : ℤ → ℤ → Bool → ℤ
intrinsic spot strike is_call =
    let gain = if is_call then spot -ℤ strike else strike -ℤ spot in
    if is_negative gain then pos 0 else gain

-- The formula, of the two distributions and the discount.
unfoldable pub premium : ℤ → ℤ → ℤ → ℤ → ℤ → Bool → ℤ
premium spot strike n_d1 n_d2 discount is_call =
    if is_call
    then opt_mul spot n_d1 -ℤ opt_mul (opt_mul strike discount) n_d2
    else opt_mul (opt_mul strike discount) (pos wad -ℤ n_d2) -ℤ opt_mul spot (pos wad -ℤ n_d1)

-- `if price.Cmp(intrinsic) < 0 { price = intrinsic }`
unfoldable pub at_least : ℤ → ℤ → ℤ
at_least floor price = if ltb_ℤ price floor then floor else price

-- The time to expiry in years, in fixed point; the seconds are an int64.
unfoldable pub years : ℤ → ℤ
years seconds = quo (seconds *ℤ pos wad) (pos year_seconds)

unfoldable pub time_value : ℤ → ℤ → ℤ → ℤ → ℤ → Bool → MathError ⊎ ℤ
time_value spot strike t rate volatility is_call =
    bind (opt_d1_d2 spot strike t rate volatility) (λ m. bind (opt_normal_cdf m.d1) (λ n_d1.
      bind (opt_normal_cdf m.d2) (λ n_d2.
        bind (opt_exp_neg (opt_mul rate t))
          (λ discount. inr (premium spot strike n_d1 n_d2 discount is_call)))))

unfoldable pub opt_black_scholes : ℤ → ℤ → ℤ → ℤ → ℤ → Bool → MathError ⊎ ℤ
opt_black_scholes spot strike time_to_expiry rate volatility is_call =
    let floor = intrinsic spot strike is_call in
    let t = years time_to_expiry in
    if not (is_positive spot) || not (is_positive strike)
    then inl invalid_inputs
    else if is_zero time_to_expiry || is_zero volatility
    then inr floor
    else if not (is_positive t)
    then inr floor
    else bind (time_value spot strike t rate volatility is_call)
        (λ price. inr (at_least floor price))

pub record OptionGreeks : Type 0 where
  pub delta : ℤ
  pub gamma : ℤ
  pub vega : ℤ
  pub theta : ℤ

-- Delta at expiry or without volatility.
unfoldable pub sharp_delta : ℤ → ℤ → Bool → ℤ
sharp_delta spot strike is_call =
    if is_call
    then (if ltb_ℤ strike spot then pos wad else pos 0)
    else if ltb_ℤ spot strike
    then pos 0 -ℤ pos wad
    else pos 0

unfoldable pub smooth_delta : ℤ → Bool → ℤ
smooth_delta n_d1 is_call = if is_call then n_d1 else n_d1 -ℤ pos wad

unfoldable pub gamma_of : ℤ → ℤ → ℤ → MathError ⊎ ℤ
gamma_of spot sigma_sqrt_t density =
    let denominator = opt_mul spot sigma_sqrt_t in
    if is_zero denominator then inl divided_by_zero else inr (quo (density *ℤ pos wad) denominator)

unfoldable pub vega_of : ℤ → ℤ → ℤ → ℤ → ℤ
vega_of spot density sigma_sqrt_t volatility =
    opt_mul (opt_mul spot density) (opt_div sigma_sqrt_t volatility)

unfoldable pub theta_of : ℤ → ℤ → ℤ → ℤ → ℤ → ℤ → ℤ → ℤ → Bool → ℤ
theta_of spot strike density volatility sigma_sqrt_t rate discount n_d2 is_call =
    let decay = quo (opt_mul (opt_mul spot density) volatility) (pos 2 *ℤ sigma_sqrt_t) in
    let carried = opt_mul (opt_mul rate strike) discount in
    (pos 0 -ℤ decay)
    +ℤ (if is_call then pos 0 -ℤ opt_mul carried n_d2 else opt_mul carried (pos wad -ℤ n_d2))

abbrev flat : ℤ → OptionGreeks
flat delta = record { delta = delta; gamma = pos 0; vega = pos 0; theta = pos 0 }

-- The greeks with time and volatility left.
unfoldable pub smooth_greeks : ℤ → ℤ → ℤ → ℤ → ℤ → Bool → MathError ⊎ OptionGreeks
smooth_greeks spot strike t rate volatility is_call =
    bind (opt_d1_d2 spot strike t rate volatility) (λ m. bind (opt_normal_cdf m.d1) (λ n_d1.
      bind (opt_normal_cdf (m.d1 -ℤ m.sigma_sqrt_t)) (λ n_d2. bind (opt_normal_pdf m.d1) (λ density.
        bind (gamma_of spot m.sigma_sqrt_t density) (λ gamma.
          bind (opt_exp_neg (opt_mul rate t)) (λ discount. inr (record {
            delta = smooth_delta n_d1 is_call;
            gamma = gamma;
            vega = vega_of spot density m.sigma_sqrt_t volatility;
            theta =
                theta_of spot strike density volatility m.sigma_sqrt_t rate discount n_d2 is_call;
          })))))))

unfoldable pub opt_greeks : ℤ → ℤ → ℤ → ℤ → ℤ → Bool → MathError ⊎ OptionGreeks
opt_greeks spot strike time_to_expiry rate volatility is_call =
    let t = years time_to_expiry in
    if not (is_positive spot) || not (is_positive strike)
    then inl invalid_inputs
    else if is_zero time_to_expiry || is_zero volatility
    then inr (flat (sharp_delta spot strike is_call))
    else if not (is_positive t)
    then inr (flat (pos 0))
    else smooth_greeks spot strike t rate volatility is_call
