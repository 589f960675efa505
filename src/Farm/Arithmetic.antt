-- ===== src/Farm/Arithmetic.antt =====
-- Numbers that the reward shares of backend/services/farm_service.go stand on: shares rounded down, and
-- the pending amount between two values of the accumulator.
use native.Mathlib.Nat.{div-mul-le_self, lt_of_mul-lt-mul_right}
use tiger_swap.Prelude.{ℕ, ◌+◌, ◌-◌, ◌*◌, ◌/◌, ◌≤◌, ◌<◌, ◌≡◌, refl, arith, if◌then◌else◌, ap, ◌∙◌}
use tiger_swap.Prelude.Int.{pos, ◌*ℤ◌, ◌-ℤ◌, ltb_ℤ}
use tiger_swap.Governance.Power.{div_floor}
use tiger_swap.Governance.Decay.{mul_mono, pos-mul}
use tiger_swap.Farm.{acc_scale, base_bps, effective_amount, pending_for}

pub div-lt : (n d : ℕ) → 0 < d → n < (n / d + 1) * d
div-lt n d h = grind arith

-- A share of what the accumulator gained exceeds the exact one by less than a unit.
pub share_lt : (s e c g : ℕ) → 0 < s → (e * (c + g) / s - e * c / s) * s < e * g + s
share_lt s e c g h =
    let above = div-mul-le_self (e * (c + g)) s in
    let below = div-lt (e * c) s h in grind (arith, above, below)

-- A share of k times all of the stake is k times the emission, less than a unit below.
pub share_ge :
    (s a k c g e : ℕ)
    → 0 < s
    → k * a ≤ s
    → e * s < (g + 1) * a
    → k * e ≤ k * a * (c + g) / s - k * a * c / s + 1
share_ge s a k c g e h small out =
    let above = div-lt (k * a * (c + g)) s h in
    let below = div-mul-le_self (k * a * c) s in
    let scaled : k * (e * s) ≤ k * ((g + 1) * a) = mul_mono k _ _ (omega (arith, out)) in
    let wide : (k * a * c / s + k * e) * s < (k * a * (c + g) / s + 2) * s =
      grind (arith, above, below, scaled, small) in
    let less : k * a * c / s + k * e < k * a * (c + g) / s + 2 = lt_of_mul-lt-mul_right s wide in
    omega (arith, less)

div_floor-product : (a b d : ℕ) → div_floor (pos a *ℤ pos b) d ≡ pos (a * b / d)
unfolding div_floor
div_floor-product a b d = rw (pos-mul a b) refl

pending_parts :
    (p q : ℕ) → (if ltb_ℤ (pos p -ℤ pos q) (pos 0) then pos 0 else pos p -ℤ pos q) ≡ pos (p - q)
unfolding ◌-ℤ◌
pending_parts p q = ground arith

-- What is pending of a share since the debt that was taken at `c`.
pub pending_for-gained :
    (e c g : ℕ)
    → pending_for (pos e) (pos (c + g)) (div_floor (pos e *ℤ pos c) acc_scale)
      ≡ pos (e * (c + g) / acc_scale - e * c / acc_scale)
unfolding pending_for
pending_for-gained e c g =
    rw (div_floor-product e (c + g) acc_scale, div_floor-product e c acc_scale)
      (pending_parts (e * (c + g) / acc_scale) (e * c / acc_scale))

pub effective_amount-boosted :
    (a k : ℕ) → effective_amount (pos a) (pos (k * base_bps)) ≡ pos (k * a)
unfolding effective_amount
effective_amount-boosted a k = div_floor-product a (k * base_bps) base_bps ∙ ap pos (grind arith)
