-- ===== src/OptionMath/Bounds.antt =====
-- The normal distribution is a probability with its symmetry, and premiums are never below the payoff.
use tiger_swap.Prelude.{
  ℕ, suc, ◌-◌, ◌*◌, ◌/◌, ◌<◌, ◌≤◌, ◌≡◌, refl, Bool, true, false, ◌||◌, ◌⊎◌, inl, inr, arith, leb,
  if◌then◌else◌, ap, Bool-cases, zero, ◌==◌,
}
use native.Mathlib.Nat.{mul-le-mul}
use tiger_swap.Prelude.Int.{ℤ, pos, negsuc, ◌-ℤ◌, ◌*ℤ◌, ◌≤ℤ◌, ltb_ℤ}
use tiger_swap.OptionMath.{
  MathError, bind, wad, wad_sq, inv_sqrt_2pi, ln2, quo, absolute, is_positive, is_negative, is_zero,
  opt_mul, exp_shifted, opt_exp, opt_exp_neg, opt_normal_pdf, clamped, as_poly, upper_cdf,
  opt_normal_cdf,
}
use tiger_swap.OptionMath.Pricing.{intrinsic, at_least, years, time_value, opt_black_scholes}

*ℤ-pos : (a b : ℕ) → pos a *ℤ pos b ≡ pos (a * b)
unfolding ◌*ℤ◌
*ℤ-pos a b = ground arith

opt_mul-pos : (a b : ℕ) → opt_mul (pos a) (pos b) ≡ pos (a * b / wad)
unfolding opt_mul quo
opt_mul-pos a b = rw (opt_mul, *ℤ-pos a b) refl

exp_neg_succeeds : (h : ℕ) → h / ln2 < 200 → (v : ℤ) × (opt_exp_neg (pos h) ≡ inr v)
unfolding opt_exp_neg opt_exp bind absolute is_negative
exp_neg_succeeds h small =
    let low : leb 200 (h / ln2) ≡ false = ground arith in
    (quo (pos wad_sq) (pos (exp_shifted h)), rw (opt_exp_neg, opt_exp, low) refl)

pdf_succeeds : (t : ℕ) → t ≤ 16 * wad → (v : ℤ) × (opt_normal_pdf (pos t) ≡ inr v)
unfolding opt_normal_pdf bind quo
pdf_succeeds t le =
    let square = mul-le-mul le le in
    let e = exp_neg_succeeds (t * t / wad / 2) (omega (arith, square)) in
    (opt_mul (pos inv_sqrt_2pi) e.0, rw (opt_normal_pdf, opt_mul-pos t t) (half e.1))
  where
    half :
        {v : ℤ}
        → opt_exp_neg (pos (t * t / wad / 2)) ≡ inr v
        → bind (opt_exp_neg (pos (t * t / wad / 2))) (λ v. inr (opt_mul (pos inv_sqrt_2pi) v))
          ≡ inr (opt_mul (pos inv_sqrt_2pi) v)
    half e = rw e refl

clamped-le : (u : ℤ) → clamped u ≤ wad
unfolding clamped
clamped-le (pos n) = ground arith
clamped-le (negsuc n) = omega arith

upper_cdf_succeeds : (t : ℕ) → t ≤ 16 * wad → (u : ℕ) × (upper_cdf t ≡ inr u) × (u ≤ wad)
unfolding upper_cdf bind
upper_cdf_succeeds t le =
    let p = pdf_succeeds t le in
    (
      clamped (pos wad -ℤ opt_mul p.0 (as_poly t)),
      rw (upper_cdf, p.1) refl,
      clamped-le (pos wad -ℤ opt_mul p.0 (as_poly t)),
    )

one_less : (u : ℕ) → u ≤ wad → pos wad -ℤ pos u ≡ pos (wad - u)
one_less u h = unfold ◌-ℤ◌ in ground arith

cdf_from_zero :
    (t : ℕ)
    → t ≤ 16 * wad
    → (u : ℕ) × (upper_cdf t ≡ inr u) × (u ≤ wad) × (opt_normal_cdf (pos t) ≡ inr (pos u))
unfolding opt_normal_cdf bind absolute is_negative
cdf_from_zero t le =
    let c = upper_cdf_succeeds t le in (c.0, c.1, c.2, rw (opt_normal_cdf, c.1) refl)

cdf_below_zero :
    (n u : ℕ)
    → upper_cdf (suc n) ≡ inr u
    → u ≤ wad
    → opt_normal_cdf (negsuc n) ≡ inr (pos (wad - u))
unfolding opt_normal_cdf bind absolute is_negative
cdf_below_zero n u e h = rw (opt_normal_cdf, e) (ap inr (one_less u h))

minus_zero : pos 0 -ℤ pos 0 ≡ pos 0
unfolding ◌-ℤ◌
minus_zero = refl

minus_suc : (n : ℕ) → pos 0 -ℤ pos (suc n) ≡ negsuc n
unfolding ◌-ℤ◌
minus_suc n = ground arith

-- From -16 to 16 the distribution function is defined and between 0 and 1, and at -x it is one less what
-- it is at x, but for x = 0, where -x is x.
pub normal_cdf_symmetric :
    (n : ℕ)
    → n ≤ 16 * wad
    → (u : ℕ) × (u ≤ wad)
      × (opt_normal_cdf (pos n) ≡ inr (pos u))
      × (opt_normal_cdf (pos 0 -ℤ pos n) ≡ inr (pos (if n == 0 then u else wad - u)))
normal_cdf_symmetric zero le = let c = cdf_from_zero 0 le in (c.0, c.2, c.3, rw minus_zero c.3)
normal_cdf_symmetric (suc n) le =
    let c = cdf_from_zero (suc n) le in
    let not_zero : (suc n == 0) ≡ false = ground arith in
    (c.0, c.2, c.3, rw (minus_suc n, not_zero) (cdf_below_zero n c.0 c.1 c.2))

at_least-le : (floor price : ℤ) → floor ≤ℤ at_least floor price
unfolding at_least
at_least-le floor price = elim (Bool-cases (ltb_ℤ price floor)) [
  | inl low ↦ rw (at_least, low) (omega arith)
  | inr fine ↦ rw (at_least, fine) (ground arith)
]

intrinsic-nonneg : (spot strike : ℤ) (is_call : Bool) → pos 0 ≤ℤ intrinsic spot strike is_call
unfolding intrinsic
intrinsic-nonneg spot strike true = go (spot -ℤ strike)
  where
    go : (g : ℤ) → pos 0 ≤ℤ (if is_negative g then pos 0 else g)
    go (pos n) = unfold is_negative in omega arith
    go (negsuc n) = unfold is_negative in omega arith
intrinsic-nonneg spot strike false = go (strike -ℤ spot)
  where
    go : (g : ℤ) → pos 0 ≤ℤ (if is_negative g then pos 0 else g)
    go (pos n) = unfold is_negative in omega arith
    go (negsuc n) = unfold is_negative in omega arith

-- The formula's price, or an error of one of its parts.
abbrev pub Covered : MathError ⊎ ℤ → ℤ → MathError ⊎ ℤ → Type 0
Covered value floor r =
    ((e : MathError) × (value ≡ inl e) × (r ≡ inl e))
    ⊎ ((p : ℤ) × (r ≡ inr p) × (floor ≤ℤ p) × (pos 0 ≤ℤ p))

bound-Covered :
    (value : MathError ⊎ ℤ) (floor : ℤ)
    → pos 0 ≤ℤ floor
    → Covered value floor (bind value (λ price. inr (at_least floor price)))
unfolding bind
bound-Covered (inl e) floor h = inl (e, refl, refl)
bound-Covered (inr p) floor h =
    let le = at_least-le floor p in inr (at_least floor p, refl, le, omega (arith, le, h))

-- For positive spot and strike the premium, where no part of the formula fails, is not below the payoff
-- at once and not below 0, and without time left or volatility it is that payoff, with no error.
pub premium_covers_payoff :
    (spot strike seconds rate volatility : ℤ) (is_call : Bool)
    → is_positive spot ≡ true
    → is_positive strike ≡ true
    → Covered
        (time_value spot strike (years seconds) rate volatility is_call)
        (intrinsic spot strike is_call)
        (opt_black_scholes spot strike seconds rate volatility is_call)
      × ((is_zero seconds || is_zero volatility ≡ false)
          ⊎ (opt_black_scholes spot strike seconds rate volatility is_call
              ≡ inr (intrinsic spot strike is_call)))
unfolding opt_black_scholes
premium_covers_payoff spot strike seconds rate volatility is_call hs hk =
    elim (Bool-cases (is_zero seconds || is_zero volatility)) [
      | inl flat ↦
          let payoff : opt_black_scholes spot strike seconds rate volatility is_call
              ≡ inr (intrinsic spot strike is_call) =
            rw (opt_black_scholes, hs, hk, flat) refl in
          (
            inr (
              intrinsic spot strike is_call,
              payoff,
              omega arith,
              intrinsic-nonneg spot strike is_call,
            ),
            inr payoff,
          )
      | inr lively ↦ elim (Bool-cases (is_positive (years seconds))) [
        | inr late ↦
            let payoff : opt_black_scholes spot strike seconds rate volatility is_call
                ≡ inr (intrinsic spot strike is_call) =
              rw (opt_black_scholes, hs, hk, lively, late) refl in
            (
              inr (
                intrinsic spot strike is_call,
                payoff,
                omega arith,
                intrinsic-nonneg spot strike is_call,
              ),
              inl lively,
            )
        | inl early ↦ (
          rw (opt_black_scholes, hs, hk, lively, early)
              (bound-Covered (time_value spot strike (years seconds) rate volatility is_call)
                (intrinsic spot strike is_call) (intrinsic-nonneg spot strike is_call)),
          inl lively,
        )
      ]
    ]
