-- ===== src/Amm/Trading.antt =====
-- The constant-product quote: larger inputs, round trips, refusals.
use tiger_swap.Prelude.{
  ℕ, suc, ◌+◌, ◌-◌, ◌*◌, ◌<◌, ◌≤◌, ◌≡◌, refl, ◌⊎◌, inl, inr, Bool, true, false, Option, none, some,
  arith, ltb, leb, ap, Bool-cases, if◌then◌else◌,
}
use native.Mathlib.Nat.{mul-le-mul, mul-le-mul_left, mul-le-mul_right}
use tiger_swap.Prelude.Int.{ℤ, pos, positive}
use tiger_swap.Amm.{
  bps, AmmError, amount_not_positive, no_liquidity, fee_invalid, guarded, product_out,
  amount_out_xy,
}
use tiger_swap.Amm.Product.{
  Quoted, quoted-lt, product_out-Quoted, product_out-FairQuote, amount_out_xy-quote,
}

Quoted-mono :
    (w w' v y out out' : ℕ)
    → 0 < v
    → 0 < y
    → w ≤ w'
    → Quoted w v y out
    → Quoted w' v y out'
    → out ≤ out'
Quoted-mono w w' v y out out' p r le q q' =
    let less = quoted-lt w v y out q p r in
    let split : out + (y - out) ≡ y = omega arith in
    let more = mul-le-mul_right (y - out) le in
    let bound : out * (v + w') ≤ w' * y =
      omega (arith, q.below, more, ap (λ t. w * t) split, ap (λ t. w' * t) split) in
    elim (Bool-cases (leb out out')) [
      | inl fine ↦ ground arith
      | inr over ↦
          let step : suc out' ≤ out = ground arith in
          absurd (omega (arith, mul-le-mul_right (v + w') step, bound, q'.next))
    ]

-- A larger input, or a smaller fee, gets no less output.
pub larger_swap :
    (a a' x y fee fee' : ℕ)
    → 0 < a
    → a ≤ a'
    → 0 < x
    → 0 < y
    → fee < bps
    → fee' ≤ fee
    → (out out' : ℕ) × (amount_out_xy (some (pos a)) (some (pos x)) (some (pos y)) fee ≡ inr out)
      × (amount_out_xy (some (pos a')) (some (pos x)) (some (pos y)) fee' ≡ inr out')
      × (out ≤ out')
larger_swap a a' x y fee fee' ha le hx hy hf lf = (
  product_out a x y fee,
  product_out a' x y fee',
  amount_out_xy-quote a x y fee ha hx hy hf,
  amount_out_xy-quote a' x y fee' (omega arith) hx hy (omega arith),
  Quoted-mono (a * (bps - fee)) (a' * (bps - fee')) (x * bps) y _ _ (omega arith) hy
      (mul-le-mul le (omega arith)) (product_out-Quoted a x y fee hx)
      (product_out-Quoted a' x y fee' hx),
)

back-le :
    (a x y f out back : ℕ)
    → f ≤ bps
    → 0 < y - out
    → x * y ≤ (x + a) * (y - out)
    → out ≤ y
    → Quoted (out * f) ((y - out) * bps) (x + a) back
    → back ≤ a
back-le a x y f out back le pos_left kept within q = elim (Bool-cases (leb back a)) [
  | inl fine ↦ ground arith
  | inr over ↦
      let step : suc a ≤ back = ground arith in
      let split : out + (y - out) ≡ y = omega arith in
      let debt : x * out ≤ a * (y - out) = omega (arith, kept, ap (λ t. x * t) split) in
      let paid = mul-le-mul_left bps debt in
      let cheap = mul-le-mul_left (x * out) le in
      let room : 0 < (y - out) * bps = omega arith in
      absurd (
        omega
          (arith, mul-le-mul_right ((y - out) * bps + out * f) step, q.below, paid, cheap, room))
]

-- Swapping an output straight back into the pool that it left returns no more than was paid in.
pub no_round_trip_gain :
    (a x y fee : ℕ)
    → 0 < a
    → 0 < x
    → 0 < y
    → fee < bps
    → (out : ℕ) × (amount_out_xy (some (pos a)) (some (pos x)) (some (pos y)) fee ≡ inr out)
      × ((out ≡ 0)
          ⊎ ((back : ℕ) × (amount_out_xy
                  (some (pos out))
                  (some (pos (y - out)))
                  (some (pos (x + a)))
                  fee
                ≡ inr back)
              × (back ≤ a)))
no_round_trip_gain a x y fee ha hx hy hf =
    let out = product_out a x y fee in
    let fair = product_out-FairQuote a x y fee hx hy in
    (
      out,
      amount_out_xy-quote a x y fee ha hx hy hf,
      elim (Bool-cases (ltb 0 out)) [
        | inr nothing ↦ inl (ground arith)
        | inl something ↦
            let left_over : 0 < y - out = omega (arith, fair.below_reserve) in
            inr (
              product_out out (y - out) (x + a) fee,
              amount_out_xy-quote out (y - out) (x + a) fee (ground arith) left_over (omega arith)
                  hf,
              back-le a x y (bps - fee) out _ (omega arith) left_over fair.product_kept
                  (omega (arith, fair.below_reserve))
                  (product_out-Quoted out (y - out) (x + a) fee left_over),
            )
      ],
    )

-- The first missing thing, in the order in which the quote looks.
unfoldable pub first_refusal : Option ℕ → Option ℕ → Option ℕ → Bool → Option AmmError
first_refusal none x y full = some amount_not_positive
first_refusal (some a) none y full = some no_liquidity
first_refusal (some a) (some x) none full = some no_liquidity
first_refusal (some a) (some x) (some y) true = some fee_invalid
first_refusal (some a) (some x) (some y) false = none

abbrev pub error_of {ℓ} : {A : Type ℓ} → AmmError ⊎ A → Option AmmError
error_of (inl e) = some e
error_of (inr a) = none

-- The quote is refused just where the amount or a reserve is missing or not or the fee is 100%
-- or more, and the error names the first of these that fails, in this order.
pub xy_refusals :
    (a x y : Option ℤ) (fee : ℕ)
    → error_of (amount_out_xy a x y fee)
      ≡ first_refusal (positive a) (positive x) (positive y) (leb bps fee)
unfolding amount_out_xy guarded first_refusal
xy_refusals a x y fee = go (positive a) (positive x) (positive y) (leb bps fee)
  where
    go :
        (p q r : Option ℕ) (full : Bool)
        → error_of {A = ℕ} (elim p [
          | none ↦ inl amount_not_positive
          | some a ↦ elim q [
            | none ↦ inl no_liquidity
            | some x ↦ elim r [
              | none ↦ inl no_liquidity
              | some y ↦ if full then inl fee_invalid else inr (product_out a x y fee)
            ]
          ]
        ])
          ≡ first_refusal p q r full
    go none q r full = refl
    go (some a) none r full = refl
    go (some a) (some x) none full = refl
    go (some a) (some x) (some y) true = refl
    go (some a) (some x) (some y) false = refl
