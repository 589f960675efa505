-- ===== src/OptionMath/Logarithm.antt =====
-- The loops at the start of optLn end with a mantissa between 1 and 2 that stands for the argument.
use tiger_swap.Prelude.{
  ℕ, zero, suc, ◌+◌, ◌*◌, ◌/◌, ◌^◌, ◌<◌, ◌≤◌, ◌≡◌, refl, inl, inr, ◌⊎◌, arith, ltb, ap, ◌∙◌, subst,
  Bool-cases,
}
use native.Mathlib.Nat.{mul-le-mul_right}
use tiger_swap.Prelude.Int.{pos}
use tiger_swap.OptionMath.{wad, minus, scale_up, scale_down, normalized}

abbrev pub InRange : ℕ → Type 0
InRange m = (wad ≤ m) × (m < 2 * wad)

pow_suc : (k : ℕ) → 2 ^ suc k ≡ 2 * 2 ^ k
pow_suc k = omega arith

pow_add_one : (k : ℕ) → 2 ^ (k + 1) ≡ 2 * 2 ^ k
pow_add_one k = ap (λ (n : ℕ). 2 ^ n) (omega arith) ∙ pow_suc k

scale_up-InRange : (fuel m n : ℕ) → m < 2 * wad → wad ≤ m * 2 ^ fuel → InRange (scale_up fuel m n).0
unfolding scale_up
scale_up-InRange zero m n h k = (omega arith, h)
scale_up-InRange (suc fuel) m n h k = elim (Bool-cases (ltb m wad)) [
  | inl low ↦
      let k' : wad ≤ m * (2 * 2 ^ fuel) = subst (λ p. wad ≤ m * p) (pow_suc fuel) k in
      rw (scale_up, low) (scale_up-InRange fuel (m * 2) (n + 1) (ground arith) (omega arith))
  | inr high ↦ rw (scale_up, high) (ground arith, h)
]

-- The mantissa is the argument times the power of two that the exponent counts.
scale_up-value :
    (fuel m n x : ℕ) → m ≡ x * 2 ^ n → (scale_up fuel m n).0 ≡ x * 2 ^ (scale_up fuel m n).1
unfolding scale_up
scale_up-value zero m n x e = e
scale_up-value (suc fuel) m n x e = elim (Bool-cases (ltb m wad)) [
  | inl low ↦
      rw (scale_up, low)
        (scale_up-value fuel (m * 2) (n + 1) x (rw (pow_add_one n) (omega (arith, e))))
  | inr high ↦ rw (scale_up, high) e
]

scale_down-InRange : (fuel m n : ℕ) → wad ≤ m → m ≤ fuel → InRange (scale_down fuel m n).0
unfolding scale_down
scale_down-InRange zero m n h k = absurd (omega arith)
scale_down-InRange (suc fuel) m n h k = elim (Bool-cases (ltb m (2 * wad))) [
  | inl low ↦ rw (scale_down, low) (h, ground arith)
  | inr high ↦
      rw (scale_down, high) (scale_down-InRange fuel (m / 2) (n + 1) (ground arith) (omega arith))
]

-- The mantissa is the argument divided by the power of two, rounded down.
abbrev pub RoundedTo : ℕ → ℕ → ℕ → Type 0
RoundedTo x m n = (m * 2 ^ n ≤ x) × (x < suc m * 2 ^ n)

halved-le : (m k : ℕ) → (m / 2 * (2 * k) ≤ m * k) × (suc m * k ≤ suc (m / 2) * (2 * k))
halved-le m k = (go (m / 2) (omega arith), above (m / 2) (omega arith))
  where
    go : (h : ℕ) → 2 * h ≤ m → h * (2 * k) ≤ m * k
    go h le = omega (arith, mul-le-mul_right k le)

    above : (h : ℕ) → suc m ≤ 2 * suc h → suc m * k ≤ suc h * (2 * k)
    above h le = omega (arith, mul-le-mul_right k le)

scale_down-value :
    (fuel m n x : ℕ) → RoundedTo x m n → RoundedTo x (scale_down fuel m n).0 (scale_down fuel m n).1
unfolding scale_down
scale_down-value zero m n x e = e
scale_down-value (suc fuel) m n x e = elim (Bool-cases (ltb m (2 * wad))) [
  | inl low ↦ rw (scale_down, low) e
  | inr high ↦
      let h = halved-le m (2 ^ n) in
      rw (scale_down, high)
        (scale_down-value fuel (m / 2) (n + 1) x
          (rw (pow_add_one n) (omega (arith, h.0, e.0), omega (arith, h.1, e.1))))
]

-- For a positive argument the loops end, and their mantissa is at least 1 and below 2 in fixed point. It
-- is the argument times a power of two where that is below 1, and else the argument divided by a power
-- of two, rounded down.
pub normalized_mantissa :
    (x : ℕ)
    → 0 < x
    → InRange (normalized x).0
      × (((k : ℕ) × ((normalized x).1 ≡ minus k) × ((normalized x).0 ≡ x * 2 ^ k))
          ⊎ ((k : ℕ) × ((normalized x).1 ≡ pos k) × RoundedTo x (normalized x).0 k))
unfolding normalized
normalized_mantissa x h = elim (Bool-cases (ltb x wad)) [
  | inl small ↦
      rw (normalized, small)
        (
          scale_up-InRange 60 x 0 (ground arith) (omega arith),
          inl ((scale_up 60 x 0).1, refl, scale_up-value 60 x 0 x (omega arith)),
        )
  | inr large ↦
      rw (normalized, large)
        (
          scale_down-InRange x x 0 (ground arith) (omega arith),
          inr ((scale_down x x 0).1, refl, scale_down-value x x 0 x (omega arith, omega arith)),
        )
]
