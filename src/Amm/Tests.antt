-- ===== src/Amm/Tests.antt =====
-- Quotes at concrete pools, and the theorems at them.
use tiger_swap.Prelude.{ℕ, ◌+◌, ◌-◌, ◌≤◌, ◌≡◌, refl, ◌⊎◌, inl, inr, some, arith}
use tiger_swap.Prelude.Int.{pos, positive}
use tiger_swap.Amm.{output_exceeds_reserves, guarded, product_out, amount_out_xy, amount_out_stable}
use tiger_swap.Amm.Product.{FairQuote, swap_keeps_product}
use tiger_swap.Amm.Trading.{no_round_trip_gain}
use tiger_swap.Amm.Stable.{StableQuote, new_balance, stable_quote}

quote_of_1000 :
    amount_out_xy (some (pos 1000)) (some (pos 1000000)) (some (pos 2000000)) 30 ≡ inr 1992
unfolding amount_out_xy guarded positive product_out
quote_of_1000 = refl

swap_keeps_product_example :
    (out : ℕ) × (amount_out_xy (some (pos 1000)) (some (pos 1000000)) (some (pos 2000000)) 30
      ≡ inr out)
    × FairQuote 1000 1000000 2000000 30 out
swap_keeps_product_example =
    swap_keeps_product 1000 1000000 2000000 30 (omega arith) (omega arith) (omega arith)
      (omega arith)

no_round_trip_gain_example :
    (out : ℕ) × (amount_out_xy (some (pos 1000)) (some (pos 1000000)) (some (pos 2000000)) 30
      ≡ inr out)
    × ((out ≡ 0)
        ⊎ ((back : ℕ) × (amount_out_xy
                (some (pos out))
                (some (pos (2000000 - out)))
                (some (pos (1000000 + 1000)))
                30
              ≡ inr back)
            × (back ≤ 1000)))
no_round_trip_gain_example =
    no_round_trip_gain 1000 1000000 2000000 30 (omega arith) (omega arith) (omega arith)
      (omega arith)

stable_quote_example :
    ((amount_out_stable
          (some (pos 1000))
          (some (pos 1000000))
          (some (pos 1200000))
          (some (pos 100))
          4
        ≡ inl output_exceeds_reserves)
      × ((new_balance 1000 1000000 1200000 100 4 ≡ 0)
          ⊎ (1200000 ≤ new_balance 1000 1000000 1200000 100 4)))
    ⊎ ((out : ℕ) × (amount_out_stable
            (some (pos 1000))
            (some (pos 1000000))
            (some (pos 1200000))
            (some (pos 100))
            4
          ≡ inr out)
        × StableQuote 1000000 1200000 1000 100 4 out)
stable_quote_example =
    stable_quote 1000 1000000 1200000 100 4 (omega arith) (omega arith) (omega arith) (omega arith)
      (omega arith)
