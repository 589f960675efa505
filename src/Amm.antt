-- ===== src/Amm.antt =====
-- The swap math of backend/go/amm/amm.go. A *big.Int is an optional integer, `none` for nil; past the
-- guards on its sign it is a number. big.Float and math.Pow are a parameter.
mod Product
mod Trading
mod Stable
mod Slippage
mod Tests
use tiger_swap.Prelude.{
  ℕ, zero, suc, ◌+◌, ◌-◌, ◌*◌, ◌/◌, Bool, true, false, ◌||◌, Option, none, some, ◌⊎◌, inl, inr, ltb,
  leb, ◌==◌, if◌then◌else◌,
}
use tiger_swap.Prelude.Int.{ℤ, pos, negsuc, positive}
use tiger_swap.Prelude.Word.{Float64, float_lt, float_le, to_int64}

abbrev pub bps : ℕ
bps = 10000

pub data Family : Type 0 where
  family_v2 family_v3 family_stable family_weighted : Family

pub data AmmError : Type 0 where
  amount_not_positive no_liquidity fee_invalid amplification_not_set : AmmError
  output_exceeds_reserves weights_not_set ratio_invalid no_output : AmmError

-- The guards that the quotes share: the amount, both reserves, the fee. A quote follows.
unfoldable pub guarded {ℓ} :
    {A : Type ℓ} → Option ℤ → Option ℤ → Option ℤ → (ℕ → ℕ → ℕ → AmmError ⊎ A) → AmmError ⊎ A
guarded amount_in reserve_in reserve_out quote = elim (positive amount_in) [
  | none ↦ inl amount_not_positive
  | some a ↦ elim (positive reserve_in) [
    | none ↦ inl no_liquidity
    | some x ↦ elim (positive reserve_out) [ none ↦ inl no_liquidity | some y ↦ quote a x y ]
  ]
]

-- The constant-product formula, past its guards.
unfoldable pub product_out : ℕ → ℕ → ℕ → ℕ → ℕ
product_out a x y fee = a * (bps - fee) * y / (x * bps + a * (bps - fee))

unfoldable pub amount_out_xy : Option ℤ → Option ℤ → Option ℤ → ℕ → AmmError ⊎ ℕ
unfolding guarded product_out
amount_out_xy amount_in reserve_in reserve_out fee_bps =
    guarded amount_in reserve_in reserve_out
      (λ a x y. if leb bps fee_bps then inl fee_invalid else inr (product_out a x y fee_bps))

-- `|a - b| <= 1`
unfoldable pub within_one : ℕ → ℕ → Bool
within_one a b = leb (a - b + (b - a)) 1

-- One round of the iteration for D.
unfoldable pub next_invariant : ℕ → ℕ → ℕ → ℕ → ℕ
next_invariant ann x y d =
    let p = d * d / (2 * x) * d / (2 * y) in (ann * (x + y) + p * 2) * d / ((ann - 1) * d + 3 * p)

unfoldable pub invariant_loop : ℕ → ℕ → ℕ → ℕ → ℕ → ℕ
unfolding next_invariant within_one
invariant_loop zero ann x y d = d
invariant_loop (suc rounds) ann x y d =
    let d' = next_invariant ann x y d in
    let rest = invariant_loop rounds ann x y d' in if within_one d' d then d' else rest

abbrev pub max_rounds : ℕ
max_rounds = 255

unfoldable pub stable_invariant : ℕ → ℕ → ℕ → ℕ
unfolding invariant_loop
stable_invariant x y amp = if x + y == 0 then 0 else invariant_loop max_rounds (amp * 2) x y (x + y)

-- The coefficients of GetY's quadratic.
unfoldable pub get_y_c : ℕ → ℕ → ℕ → ℕ
get_y_c x_in d amp = d * d / (2 * x_in) * d / (amp * 2 * 2)

unfoldable pub get_y_b : ℕ → ℕ → ℕ → ℕ
get_y_b x_in d amp = x_in + d / (amp * 2)

-- The loop of GetY. The denominator `2 y + (b - d)` is tested for its sign before the division.
unfoldable pub get_y_loop : ℕ → ℕ → ℕ → ℕ → ℕ → ℕ
unfolding within_one
get_y_loop zero b c d y = y
get_y_loop (suc rounds) b c d y =
    let y' = (y * y + c) / (2 * y + b - d) in
    let rest = get_y_loop rounds b c d y' in
    if leb (2 * y + b) d then y else if within_one y' y then y' else rest

unfoldable pub get_y : ℕ → ℕ → ℕ → ℕ
unfolding get_y_loop get_y_b get_y_c
get_y x_in d amp = get_y_loop max_rounds (get_y_b x_in d amp) (get_y_c x_in d amp) d d

-- The StableSwap quote, past its guards.
unfoldable pub stable_out : ℕ → ℕ → ℕ → ℕ → ℕ → AmmError ⊎ ℕ
unfolding stable_invariant get_y
stable_out a x y amp fee =
    let after_fee = a * (bps - fee) / bps in
    let y' = get_y (x + after_fee) (stable_invariant x y amp) amp in
    if (y' == 0) || leb y y' then inl output_exceeds_reserves else inr (y - y')

unfoldable pub amount_out_stable : Option ℤ → Option ℤ → Option ℤ → Option ℤ → ℕ → AmmError ⊎ ℕ
unfolding guarded stable_out
amount_out_stable amount_in reserve_in reserve_out amp fee_bps =
    guarded amount_in reserve_in reserve_out (λ a x y. elim (positive amp) [
      | none ↦ inl amplification_not_set
      | some m ↦ if leb bps fee_bps then inl fee_invalid else stable_out a x y m fee_bps
    ])

-- Floating point that the package calls: big.Float with its conversions, and float64.
pub record Floats : Type 1 where
  pub BigFloat : Type 0
  pub set_int : ℕ → BigFloat
  pub new_float : Float64 → BigFloat
  pub quo : BigFloat → BigFloat → BigFloat
  pub sub : BigFloat → BigFloat → BigFloat
  pub mul : BigFloat → BigFloat → BigFloat
  pub to_float64 : BigFloat → Float64
  pub truncate : BigFloat → ℤ
  pub pow : Float64 → Float64 → Float64
  pub one : Float64
  pub hundred : Float64
  pub bps_float : Float64
  pub float_sub : Float64 → Float64 → Float64
  pub float_mul : Float64 → Float64 → Float64
  pub to_int : Float64 → ℤ

-- The weighted-pool quote, past its guards.
unfoldable pub weighted_out : Floats → ℕ → ℕ → ℕ → ℕ → ℕ → ℕ → AmmError ⊎ ℕ
weighted_out fl a x y w_in w_out fee =
    let after_fee = a * (bps - fee) / bps in
    let base = fl.to_float64 (fl.quo (fl.set_int x) (fl.set_int (x + after_fee))) in
    let exponent = fl.to_float64 (fl.quo (fl.set_int w_in) (fl.set_int w_out)) in
    let ratio = fl.pow base exponent in
    if float_le base 0
    then inl ratio_invalid
    else elim (positive (
        some (
          fl.truncate
            (fl.mul (fl.set_int y) (fl.sub (fl.new_float fl.one) (fl.new_float ratio)))))) [
              | none ↦ inl no_output
              | some out ↦ inr out
            ]

unfoldable pub amount_out_weighted :
    Floats → Option ℤ → Option ℤ → Option ℤ → Option ℤ → Option ℤ → ℕ → AmmError ⊎ ℕ
unfolding guarded weighted_out
amount_out_weighted fl amount_in reserve_in reserve_out weight_in weight_out fee_bps =
    guarded amount_in reserve_in reserve_out (λ a x y. elim (positive weight_in) [
      | none ↦ inl weights_not_set
      | some w_in ↦ elim (positive weight_out) [
        | none ↦ inl weights_not_set
        | some w_out ↦
            if leb bps fee_bps then inl fee_invalid else weighted_out fl a x y w_in w_out fee_bps
      ]
    ])

-- The multiplier of ApplySlippage in basis points.
unfoldable pub slippage_multiplier : Floats → Float64 → ℤ
slippage_multiplier fl percent = fl.to_int (
    fl.float_sub fl.bps_float (fl.float_mul (if float_lt percent 0 then 0 else percent) fl.hundred))

-- A multiplier that is not positive gives 0.
unfoldable pub scaled_down : ℕ → Option ℕ → ℕ
scaled_down amount none = 0
scaled_down amount (some m) = amount * m / bps

-- An output amount, which is not negative, reduced by the slippage.
unfoldable pub apply_slippage : Floats → ℕ → Float64 → ℕ
unfolding scaled_down
apply_slippage fl amount_out percent =
    scaled_down amount_out (positive (some (slippage_multiplier fl percent)))

unfoldable pub price_impact_percent : Floats → Option ℤ → Option ℕ → Float64
price_impact_percent fl amount_in none = 0
price_impact_percent fl amount_in (some out) = elim (positive amount_in) [
  | none ↦ 0
  | some a ↦
      fl.float_mul (fl.float_sub fl.one (fl.to_float64 (fl.quo (fl.set_int out) (fl.set_int a))))
        fl.hundred
]
