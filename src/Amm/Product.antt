-- ===== src/Amm/Product.antt =====
-- The constant-product quote: its bounds, the invariant x * y, and that no unit more would do.
use tiger_swap.Prelude.{
  ℕ, suc, ◌+◌, ◌-◌, ◌*◌, ◌<◌, ◌≤◌, ◌≡◌, inl, inr, some, arith, ltb, ap, Bool-cases,
}
use native.Mathlib.Nat.{
  mul-le-mul_left, mul-le-mul_right, le_of_mul-le-mul_left, div-mul-le_self, lt-div-mul-add,
  mul-lt-mul_of_pos_left,
}
use tiger_swap.Prelude.Int.{pos, positive-pos}
use tiger_swap.Amm.{bps, guarded, product_out, amount_out_xy}

-- `w` is the input after its fee, `v` the reserve, both in basis points.
pub record Quoted (w v y out : ℕ) : Type 0 where
  pub below : out * (v + w) ≤ w * y
  pub next : w * y < suc out * (v + w)

pub product_out-Quoted :
    (a x y fee : ℕ) → 0 < x → Quoted (a * (bps - fee)) (x * bps) y (product_out a x y fee)
unfolding product_out
product_out-Quoted a x y fee p =
    let w = a * (bps - fee) in
    record {
      below = div-mul-le_self (w * y) (x * bps + w);
      next = omega (arith, lt-div-mul-add {a = w * y} {b = x * bps + w} (omega arith));
    }

module _ (w v y out : ℕ) (q : Quoted w v y out) (p : 0 < v) (r : 0 < y) where
  pub quoted-lt : out < y
  quoted-lt = elim (Bool-cases (ltb out y)) [
    | inl under ↦ ground arith
    | inr not_under ↦
        let over : y ≤ out = ground arith in
        absurd (
          omega (
            arith,
            mul-le-mul_right (v + w) over,
            mul-lt-mul_of_pos_left {m = 0} {n = v} p r,
            q.below,
          ))
  ]

  -- With `k` for what is left of the reserve.
  left : (k : ℕ) → out + k ≡ y → (v * y ≤ (v + w) * k)
  left k e = omega (arith, q.below, ap (λ t. t * (v + w)) e)

  quoted-keeps : v * y ≤ (v + w) * (y - out)
  quoted-keeps = left (y - out) (omega (arith, quoted-lt))

  quoted-best : (v + w) * (y - suc out) < v * y
  quoted-best = go (y - suc out) (omega (arith, quoted-lt))
    where
      go : (k : ℕ) → suc out + k ≡ y → (v + w) * k < v * y
      go k e = omega (arith, q.next, ap (λ t. t * (v + w)) e)

-- The product of the reserves themselves: the fee stays in the pool.
keeps-product :
    (a x y f k : ℕ) → f ≤ bps → x * bps * y ≤ (x * bps + a * f) * k → x * y ≤ (x + a) * k
keeps-product a x y f k le h =
    le_of_mul-le-mul_left {k = bps} (omega (arith, mul-le-mul_left (a * k) le)) (omega arith)

-- What a swap of positive amounts promises.
pub record FairQuote (a x y fee out : ℕ) : Type 0 where
  pub below_reserve : out < y
  pub product_kept : x * y ≤ (x + a) * (y - out)
  pub most : (x * bps + a * (bps - fee)) * (y - suc out) < x * y * bps
  pub fee_kept : x * y * bps ≤ (x * bps + a * (bps - fee)) * (y - out)

pub product_out-FairQuote :
    (a x y fee : ℕ) → 0 < x → 0 < y → FairQuote a x y fee (product_out a x y fee)
product_out-FairQuote a x y fee p r =
    let w = a * (bps - fee) in
    let q = product_out-Quoted a x y fee p in
    let v = x * bps in
    let keeps = quoted-keeps w v y _ q (omega arith) r in
    record {
      below_reserve = quoted-lt w v y _ q (omega arith) r;
      product_kept = keeps-product a x y (bps - fee) _ (omega arith) keeps;
      most = omega (arith, quoted-best w v y _ q (omega arith) r);
      fee_kept = omega (arith, keeps);
    }

pub amount_out_xy-quote :
    (a x y fee : ℕ)
    → 0 < a
    → 0 < x
    → 0 < y
    → fee < bps
    → amount_out_xy (some (pos a)) (some (pos x)) (some (pos y)) fee ≡ inr (product_out a x y fee)
unfolding amount_out_xy
amount_out_xy-quote a x y fee ha hx hy hf =
    rw (amount_out_xy, guarded, positive-pos a ha, positive-pos x hx, positive-pos y hy)
      (ground arith)

-- For positive amounts and a fee below 100% the quote succeeds with less than the output reserve. The
-- product of the reserves does not fall, not even with the fee left out of the input, and with one unit
-- more of output it would fall.
pub swap_keeps_product :
    (a x y fee : ℕ)
    → 0 < a
    → 0 < x
    → 0 < y
    → fee < bps
    → (out : ℕ) × (amount_out_xy (some (pos a)) (some (pos x)) (some (pos y)) fee ≡ inr out)
      × FairQuote a x y fee out
swap_keeps_product a x y fee ha hx hy hf = (
  product_out a x y fee,
  amount_out_xy-quote a x y fee ha hx hy hf,
  product_out-FairQuote a x y fee hx hy,
)
