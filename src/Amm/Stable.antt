-- ===== src/Amm/Stable.antt =====
-- The StableSwap quote: the rounding of GetY favours the pool, the output is within the reserve, and
-- the invariant of a balanced pool is its size.
use tiger_swap.Prelude.{
  ℕ, zero, suc, ◌+◌, ◌-◌, ◌*◌, ◌/◌, ◌<◌, ◌≤◌, ◌≡◌, refl, ◌⊎◌, inl, inr, true, false, ◌==◌, some,
  arith, leb, leb→le, ap, ◌∙◌, subst, Bool-cases,
}
use native.Mathlib.Nat.{lt-div-mul-add, mul-div_cancel}
use tiger_swap.Prelude.Int.{pos, positive-pos}
use tiger_swap.Amm.{
  bps, output_exceeds_reserves, guarded, within_one, next_invariant, invariant_loop,
  stable_invariant, get_y_b, get_y_c, get_y_loop, get_y, stable_out, amount_out_stable,
}

-- One unit more than `y` is past the root of `y * y + b * y = c + d * y`.
abbrev pub PastRoot : ℕ → ℕ → ℕ → ℕ → Type 0
PastRoot b c d y = c + d * suc y < suc y * suc y + b * suc y

square-le : (z p : ℕ) → 2 * (z * p) ≤ z * z + p * p
square-le z p = elim (Bool-cases (leb z p)) [
  | inl le ↦ go z (p - z) p (ground arith)
  | inr gt ↦ let h = go p (z - p) z (ground arith) in omega arith
]
  where
    go : (m k n : ℕ) → m + k ≡ n → 2 * (m * n) ≤ m * m + n * n
    go m k n e = omega (arith, ap (λ t. t * t) e, ap (λ t. m * t) e)

module _ (b c d : ℕ) where
  -- A round of the iteration, from any point that it goes on from.
  round-PastRoot : (y : ℕ) → d < 2 * y + b → PastRoot b c d ((y * y + c) / (2 * y + b - d))
  round-PastRoot y h = go (2 * y + b - d) (omega arith)
    where
      go : (m : ℕ) → d + m ≡ 2 * y + b → PastRoot b c d ((y * y + c) / m)
      go m e =
          let q = (y * y + c) / m in
          let over = lt-div-mul-add {a = y * y + c} {b = m} (omega arith) in
          omega (arith, over, square-le (suc q) y, ap (λ t. suc q * t) e)

  loop-PastRoot : (rounds y : ℕ) → PastRoot b c d y → PastRoot b c d (get_y_loop rounds b c d y)
  unfolding get_y_loop
  loop-PastRoot zero y h = h
  loop-PastRoot (suc rounds) y h = elim (Bool-cases (leb (2 * y + b) d)) [
    | inl stuck ↦ rw (stuck, get_y_loop) h
    | inr goes ↦
        let next = round-PastRoot y (ground arith) in
        elim (Bool-cases (within_one ((y * y + c) / (2 * y + b - d)) y)) [
          | inl close ↦ rw (goes, close, get_y_loop) next
          | inr far ↦ rw (goes, far, get_y_loop) (loop-PastRoot rounds _ next)
        ]
  ]

  first-PastRoot : (rounds y : ℕ) → d < 2 * y + b → PastRoot b c d (get_y_loop (suc rounds) b c d y)
  unfolding get_y_loop
  first-PastRoot rounds y h =
      let next = round-PastRoot y h in
      let goes : leb (2 * y + b) d ≡ false = ground arith in
      elim (Bool-cases (within_one ((y * y + c) / (2 * y + b - d)) y)) [
        | inl close ↦ rw (goes, close, get_y_loop) next
        | inr far ↦ rw (goes, far, get_y_loop) (loop-PastRoot rounds _ next)
      ]

-- GetY is never more than one unit below the exact balance: its successor is past the root of the
-- quadratic that the code solves, whatever the number of rounds it took.
pub get_y-PastRoot :
    (x_in d amp : ℕ)
    → 0 < x_in
    → PastRoot (get_y_b x_in d amp) (get_y_c x_in d amp) d (get_y x_in d amp)
unfolding get_y get_y_b
get_y-PastRoot x_in d amp h =
    first-PastRoot (x_in + d / (amp * 2)) (get_y_c x_in d amp) d 254 d (omega arith)

next_invariant-balanced : (x ann : ℕ) → 0 < x → 0 < ann → next_invariant ann x x (x + x) ≡ x + x
unfolding next_invariant
next_invariant-balanced x ann hx ha = rw (first, first) last
  where
    first : (x + x) * (x + x) / (2 * x) ≡ x + x
    first =
        ap (λ t. (x + x) * t / (2 * x)) (omega arith)
        ∙ mul-div_cancel (x + x) {n = 2 * x} (omega arith)

    last : (ann * (x + x) + (x + x) * 2) * (x + x) / ((ann - 1) * (x + x) + 3 * (x + x)) ≡ x + x
    last = go (ann - 1) (omega arith)
      where
        go :
            (k : ℕ)
            → suc k ≡ ann
            → (ann * (x + x) + (x + x) * 2) * (x + x) / (k * (x + x) + 3 * (x + x)) ≡ x + x
        go k e =
            ap (λ t. t / (k * (x + x) + 3 * (x + x))) (omega (arith, ap (λ t. t * (x * x)) e))
            ∙ mul-div_cancel (x + x) {n = k * (x + x) + 3 * (x + x)} (omega arith)

within_one_refl : (n : ℕ) → within_one n n ≡ true
unfolding within_one
within_one_refl n = ground arith

loop-balanced :
    (rounds ann x : ℕ) → 0 < x → 0 < ann → invariant_loop (suc rounds) ann x x (x + x) ≡ x + x
unfolding invariant_loop
loop-balanced rounds ann x hx ha =
    rw (invariant_loop, next_invariant-balanced x ann hx ha, within_one_refl (x + x)) refl

-- The invariant of a balanced pool is exactly the sum of its reserves.
pub stable_invariant-balanced : (x amp : ℕ) → 0 < x → 0 < amp → stable_invariant x x amp ≡ x + x
unfolding stable_invariant
stable_invariant-balanced x amp hx ha =
    let nonzero : (x + x == 0) ≡ false = ground arith in
    rw (stable_invariant, nonzero) (loop-balanced 254 (amp * 2) x hx (omega arith))

-- The two outcomes of a quote past its guards.
pub record StableQuote (x y a amp fee out : ℕ) : Type 0 where
  pub some_output : 0 < out
  pub below_reserve : out < y
  pub rounded_up :
      let x' = x + a * (bps - fee) / bps in
      let d = stable_invariant x y amp in PastRoot (get_y_b x' d amp) (get_y_c x' d amp) d (y - out)

-- The balance that GetY leaves for the output coin.
abbrev pub new_balance : ℕ → ℕ → ℕ → ℕ → ℕ → ℕ
new_balance a x y amp fee = get_y (x + a * (bps - fee) / bps) (stable_invariant x y amp) amp

fits-bounds :
    (y n : ℕ) → (n == 0) ≡ false → leb y n ≡ false → (0 < y - n) × (y - n < y) × (n ≡ y - (y - n))
fits-bounds y n h k = (ground arith, ground arith, ground arith)

zero-eq : (n : ℕ) → (n == 0) ≡ true → n ≡ 0
zero-eq n h = ground arith

stable_out-cases :
    (a x y amp fee : ℕ)
    → 0 < x
    → ((stable_out a x y amp fee ≡ inl output_exceeds_reserves)
        × ((new_balance a x y amp fee ≡ 0) ⊎ (y ≤ new_balance a x y amp fee)))
      ⊎ ((out : ℕ) × (stable_out a x y amp fee ≡ inr out) × StableQuote x y a amp fee out)
unfolding stable_out
stable_out-cases a x y amp fee hx = elim (Bool-cases (new_balance a x y amp fee == 0)) [
  | inl zero_left ↦ inl (rw (stable_out, zero_left) refl, inl (zero-eq _ zero_left))
  | inr some_left ↦ elim (Bool-cases (leb y (new_balance a x y amp fee))) [
    | inl too_much ↦ inl (rw (stable_out, some_left, too_much) refl, inr (leb→le _ _ too_much))
    | inr fits ↦
        let bounds = fits-bounds y (new_balance a x y amp fee) some_left fits in
        inr (
          y - new_balance a x y amp fee,
          rw (stable_out, some_left, fits) refl,
          record {
            some_output = bounds.0;
            below_reserve = bounds.1;
            rounded_up =
                let x' = x + a * (bps - fee) / bps in
                let d = stable_invariant x y amp in
                subst (PastRoot (get_y_b x' d amp) (get_y_c x' d amp) d) bounds.2
                  (get_y-PastRoot x' d amp (omega arith));
          },
        )
  ]
]

amount_out_stable-out :
    (a x y amp fee : ℕ)
    → 0 < a
    → 0 < x
    → 0 < y
    → 0 < amp
    → fee < bps
    → amount_out_stable (some (pos a)) (some (pos x)) (some (pos y)) (some (pos amp)) fee
      ≡ stable_out a x y amp fee
unfolding amount_out_stable
amount_out_stable-out a x y amp fee ha hx hy hm hf =
    let fee_ok : leb bps fee ≡ false = ground arith in
    rw
      (
        amount_out_stable,
        guarded,
        positive-pos a ha,
        positive-pos x hx,
        positive-pos y hy,
        positive-pos amp hm,
        fee_ok,
      )
      refl

-- For positive amounts and a fee below 100% the quote either reports that the new balance is 0 or not
-- below the reserve, or pays an amount that is below the reserve, and at most one unit more
-- than the exact solution for the balance that it leaves.
pub stable_quote :
    (a x y amp fee : ℕ)
    → 0 < a
    → 0 < x
    → 0 < y
    → 0 < amp
    → fee < bps
    → ((amount_out_stable (some (pos a)) (some (pos x)) (some (pos y)) (some (pos amp)) fee
          ≡ inl output_exceeds_reserves)
        × ((new_balance a x y amp fee ≡ 0) ⊎ (y ≤ new_balance a x y amp fee)))
      ⊎ ((out : ℕ) × (amount_out_stable
              (some (pos a))
              (some (pos x))
              (some (pos y))
              (some (pos amp))
              fee
            ≡ inr out)
          × StableQuote x y a amp fee out)
stable_quote a x y amp fee ha hx hy hm hf =
    rw (amount_out_stable-out a x y amp fee ha hx hy hm hf) (stable_out-cases a x y amp fee hx)
