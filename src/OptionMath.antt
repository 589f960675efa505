-- ===== src/OptionMath.antt =====
-- The fixed-point option pricing of backend/services/option_math.go, but for the text conversions. A
-- big.Int is a signed integer. A Quo by zero panics; where the divisor may be 0 that is an error here.
pub mod Pricing
mod Bounds
mod Logarithm
mod Tests
use tiger_swap.Prelude.{
  ℕ, zero, suc, ◌+◌, ◌*◌, ◌/◌, ◌-◌, ◌%◌, ◌^◌, Bool, true, false, not, ◌||◌, List, [], ◌∷◌, ◌⊎◌, inl,
  inr, ltb, leb, ◌==◌, if◌then◌else◌,
}
use tiger_swap.Prelude.Int.{ℤ, pos, negsuc, sub_ℕ, pos_part, neg_part, ◌+ℤ◌, ◌-ℤ◌, ◌*ℤ◌, ltb_ℤ}

pub data MathError : Type 0 where
  ln_not_positive exp_negative exp_overflow exp_underflow inv_sqrt_not_positive : MathError
  zero_denominator invalid_inputs divided_by_zero : MathError

-- `if err != nil { return nil, err }`
unfoldable pub bind {ℓ κ} :
    {A : Type ℓ} → {B : Type κ} → MathError ⊎ A → (A → MathError ⊎ B) → MathError ⊎ B
bind (inl e) f = inl e
bind (inr a) f = f a

abbrev pub wad : ℕ
wad = 1_000_000_000_000_000_000

abbrev pub wad_sq : ℕ
wad_sq = 1_000_000_000_000_000_000_000_000_000_000_000_000

abbrev pub ln2 : ℕ
ln2 = 693147180559945309

abbrev pub inv_sqrt_2pi : ℕ
inv_sqrt_2pi = 398942280401432678

abbrev pub as_scale : ℕ
as_scale = 1_000_000_000

abbrev pub year_seconds : ℕ
year_seconds = 31_536_000

abbrev pub minus : ℕ → ℤ
minus n = sub_ℕ 0 n

-- The quotient truncated toward zero.
unfoldable pub quo : ℤ → ℤ → ℤ
quo (pos a) (pos b) = pos (a / b)
quo (pos a) (negsuc b) = minus (a / suc b)
quo (negsuc a) (pos b) = minus (suc a / b)
quo (negsuc a) (negsuc b) = pos (suc a / suc b)

unfoldable pub is_positive : ℤ → Bool
is_positive (pos n) = ltb 0 n
is_positive (negsuc n) = false

unfoldable pub is_negative : ℤ → Bool
is_negative (pos n) = false
is_negative (negsuc n) = true

unfoldable pub is_zero : ℤ → Bool
is_zero (pos n) = n == 0
is_zero (negsuc n) = false

unfoldable pub absolute : ℤ → ℕ
absolute (pos n) = n
absolute (negsuc n) = suc n

unfoldable pub opt_mul : ℤ → ℤ → ℤ
opt_mul a b = quo (a *ℤ b) (pos wad)

unfoldable pub opt_div : ℤ → ℤ → ℤ
opt_div a b = quo (a *ℤ pos wad) b

-- The first loop of optLn: the mantissa is doubled up to WAD, and the exponent counts down.
unfoldable pub scale_up : ℕ → ℕ → ℕ → ℕ × ℕ
scale_up zero m n = (m, n)
scale_up (suc fuel) m n =
    let rest = scale_up fuel (m * 2) (n + 1) in if ltb m wad then rest else (m, n)

-- The second loop: it is halved to below 2 WAD, and the exponent counts up.
unfoldable pub scale_down : ℕ → ℕ → ℕ → ℕ × ℕ
scale_down zero m n = (m, n)
scale_down (suc fuel) m n =
    let rest = scale_down fuel (m / 2) (n + 1) in if ltb m (2 * wad) then (m, n) else rest

-- The mantissa and the exponent that optLn goes on with.
unfoldable pub normalized : ℕ → ℕ × ℤ
normalized x =
    if ltb x wad
    then ((scale_up 60 x 0).0, minus (scale_up 60 x 0).1)
    else ((scale_down x x 0).0, pos (scale_down x x 0).1)

-- The series of optLn, from the odd number `i`.
unfoldable pub ln_series : ℕ → ℕ → ℤ → ℤ → ℤ → ℤ
ln_series zero i z_squared term series = series
ln_series (suc rounds) i z_squared term series =
    ln_series rounds (i + 2) z_squared (opt_mul term z_squared)
      (series +ℤ quo (pos 2 *ℤ term) (pos i))

unfoldable pub opt_ln : ℤ → MathError ⊎ ℤ
opt_ln x =
    let (m, n) = normalized (absolute x) in
    let z = quo ((pos m -ℤ pos wad) *ℤ pos wad) (pos m +ℤ pos wad) in
    if is_positive x
    then inr (ln_series 11 1 (opt_mul z z) z (pos 0) +ℤ n *ℤ pos ln2)
    else inl ln_not_positive

-- The series of optExp, of values that are not negative.
unfoldable pub exp_series : ℕ → ℕ → ℕ → ℕ → ℕ → ℕ
exp_series zero i remainder term result = result
exp_series (suc rounds) i remainder term result =
    let term' = term * remainder / (wad * i) in
    exp_series rounds (i + 1) remainder term' (result + term')

-- e^x of a value that is not negative, and its shift by the exponent.
unfoldable pub exp_shifted : ℕ → ℕ
exp_shifted x = exp_series 24 1 (x % ln2) wad wad * 2 ^ (x / ln2)

unfoldable pub opt_exp : ℤ → MathError ⊎ ℤ
opt_exp x =
    if is_negative x
    then inl exp_negative
    else if leb 200 (absolute x / ln2)
    then inl exp_overflow
    else inr (pos (exp_shifted (absolute x)))

unfoldable pub opt_exp_neg : ℤ → MathError ⊎ ℤ
opt_exp_neg x = bind (opt_exp x) (λ v. inr (quo (pos wad_sq) v))

-- The loops of optInvSqrt that bring its start near: by quarters down, and by fours up.
unfoldable pub shrink : ℕ → ℕ → ℕ → ℕ × ℕ
shrink zero temp y = (temp, y)
shrink (suc fuel) temp y =
    let rest = shrink fuel (temp / 4) (y / 2) in if leb (4 * wad) temp then rest else (temp, y)

unfoldable pub grow : ℕ → ℕ → ℕ → ℕ
grow zero temp y = y
grow (suc fuel) temp y = let rest = grow fuel (temp * 4) (y * 2) in if ltb temp wad then rest else y

-- Newton's rounds.
unfoldable pub inv_sqrt_loop : ℕ → ℕ → ℕ → ℕ
inv_sqrt_loop zero x y = y
inv_sqrt_loop (suc rounds) x y =
    let step = x * (y * y / wad) / wad in
    let next = y * (3 * wad - step) / (2 * wad) in
    let halved = inv_sqrt_loop rounds x (y / 2) in
    let rest = inv_sqrt_loop rounds x next in
    if leb (3 * wad) step then halved else if next == y then y else rest

unfoldable pub opt_inv_sqrt : ℤ → MathError ⊎ ℤ
opt_inv_sqrt x =
    let (temp, y) = shrink (absolute x) (absolute x) wad in
    if is_positive x
    then inr (pos (inv_sqrt_loop 40 (absolute x) (grow 30 temp y)))
    else inl inv_sqrt_not_positive

unfoldable pub opt_normal_pdf : ℤ → MathError ⊎ ℤ
opt_normal_pdf x =
    bind (opt_exp_neg (quo (opt_mul x x) (pos 2))) (λ v. inr (opt_mul (pos inv_sqrt_2pi) v))

-- The sum of the approximation's polynomial, from the power before.
unfoldable pub as_terms : List ℤ → ℤ → ℤ → ℤ → ℤ
as_terms [] as_t power poly = poly
as_terms (c ∷ cs) as_t power poly =
    let power' = opt_mul power as_t in as_terms cs as_t power' (poly +ℤ opt_mul c power')

unfoldable pub as_poly : ℕ → ℤ
as_poly t =
    let as_t : ℤ = pos (wad_sq / (wad + 2316419 * t / 10000000)) in
    let poly =
      as_terms (minus 356563782 ∷ pos 1781477937 ∷ minus 1821255978 ∷ pos 1330274429 ∷ []) as_t as_t
        (opt_mul (pos 319381530) as_t) in
    quo (poly *ℤ pos wad) (pos as_scale)

-- `upper`, held between 0 and WAD.
unfoldable pub clamped : ℤ → ℕ
clamped (pos n) = if ltb wad n then wad else n
clamped (negsuc n) = 0

-- The distribution at a point that is not negative.
unfoldable pub upper_cdf : ℕ → MathError ⊎ ℕ
upper_cdf t =
    bind (opt_normal_pdf (pos t))
      (λ density. inr (clamped (pos wad -ℤ opt_mul density (as_poly t))))

unfoldable pub opt_normal_cdf : ℤ → MathError ⊎ ℤ
opt_normal_cdf x =
    bind (upper_cdf (absolute x))
      (λ upper. inr (if is_negative x then pos wad -ℤ pos upper else pos upper))
