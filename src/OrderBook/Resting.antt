-- ===== src/OrderBook/Resting.antt =====
-- A side keeps its invariant when an order comes to rest on it.
use tiger_swap.Prelude.{
  ℕ, ◌+◌, ◌%◌, ◌≡◌, ◌≢◌, refl, inl, inr, true, false, ◌||◌, List, [], ◌∷◌, ◌++◌, arith, All,
  All-append, ap, ◌∙◌, sym, subst, Bool-cases, ◌==◌, length-append,
}
use tiger_swap.Prelude.Word.{word, add64-mod}
use tiger_swap.OrderBook.Types.{Side, Order, leaves_units}
use tiger_swap.OrderBook.Side.{Level, SideBook, better, new_level, add_order, rest_order}
use tiger_swap.OrderBook.Invariant.{
  IsResting, units, count_orders, LevelOk, Before, IsSorted, has_price, SideOk,
}
use tiger_swap.OrderBook.Placement.{
  rest_sorted, rest_order-sorted, rest_order-side, rest_order-index,
}

units-append : (xs ys : List Order) → units (xs ++ ys) ≡ units xs + units ys
unfolding units
units-append [] ys = omega arith
units-append (x ∷ xs) ys = omega (arith, units-append xs ys)

append-ne-nil : (xs : List Order) (o : Order) → xs ++ (o ∷ []) ≢ []
append-ne-nil [] o e = cc
append-ne-nil (x ∷ xs) o e = cc

module _ (kind : Side) (p : ℕ) (o : Order) (r : IsResting kind p o) where
  add_order-LevelOk :
      (l : Level)
      → l.price_ticks ≡ p
      → All (IsResting kind l.price_ticks) l.orders
      → l.total_units ≡ units l.orders % word
      → LevelOk kind (add_order l o)
  unfolding add_order units
  add_order-LevelOk l e a t = record {
    nonempty = append-ne-nil l.orders o;
    resting = All-append (IsResting kind l.price_ticks) l.orders (o ∷ []) a (rw e r, tt);
    total = rw t (
        add64-mod (units l.orders) (leaves_units o)
        ∙ ap (λ n. n % word) (omega (arith, units-append l.orders (o ∷ []))));
  }

  new-LevelOk : LevelOk kind (add_order (new_level p) o)
  unfolding units
  new-LevelOk = add_order-LevelOk (new_level p) refl tt (omega arith)

  rest_sorted-LevelOk :
      (ls : List Level) → All (LevelOk kind) ls → All (LevelOk kind) (rest_sorted kind p o ls)
  unfolding rest_sorted
  rest_sorted-LevelOk [] h = (new-LevelOk, tt)
  rest_sorted-LevelOk (m ∷ ms) h = elim (Bool-cases (m.price_ticks == p)) [
    | inl same ↦ rw same (add_order-LevelOk m (ground arith) h.0.resting h.0.total, h.1)
    | inr other ↦ elim (Bool-cases (better kind m.price_ticks p)) [
      | inl after ↦ rw (other, after) (h.0, rest_sorted-LevelOk ms h.1)
      | inr before ↦ rw (other, before) (new-LevelOk, h)
    ]
  ]

module _ (kind : Side) (p : ℕ) (o : Order) where
  Before-trans :
      (q r : ℕ) (ls : List Level) → better kind q r ≡ true → Before kind r ls → Before kind q ls
  unfolding better
  Before-trans q r [] b h = tt
  Before-trans q r (l ∷ ls) b h = (ground arith, Before-trans q r ls b h.1)

  better-total : (m : ℕ) → (m == p) ≡ false → better kind m p ≡ false → better kind p m ≡ true
  unfolding better
  better-total m ne nb = ground arith

  -- What holds of `p` and of the price of every level holds of the new list's prices.
  pub rest_sorted-All {ℓ} :
      (Q : ℕ → Type ℓ) (ls : List Level)
      → Q p
      → All (λ (l : Level). Q l.price_ticks) ls
      → All (λ (l : Level). Q l.price_ticks) (rest_sorted kind p o ls)
  unfolding rest_sorted add_order
  rest_sorted-All Q [] b h = (b, tt)
  rest_sorted-All Q (m ∷ ms) b h = elim (Bool-cases (m.price_ticks == p)) [
    | inl same ↦ rw same h
    | inr other ↦ elim (Bool-cases (better kind m.price_ticks p)) [
      | inl after ↦ rw (other, after) (h.0, rest_sorted-All Q ms b h.1)
      | inr before ↦ rw (other, before) (b, h)
    ]
  ]

  Before-All :
      (q : ℕ) (ls : List Level)
      → Before kind q ls
      → All (λ (l : Level). better kind q l.price_ticks ≡ true) ls
  Before-All q [] h = tt
  Before-All q (l ∷ ls) h = (h.0, Before-All q ls h.1)

  All-Before :
      (q : ℕ) (ls : List Level)
      → All (λ (l : Level). better kind q l.price_ticks ≡ true) ls
      → Before kind q ls
  All-Before q [] h = tt
  All-Before q (l ∷ ls) h = (h.0, All-Before q ls h.1)

  rest_sorted-Before :
      (q : ℕ) (ls : List Level)
      → better kind q p ≡ true
      → Before kind q ls
      → Before kind q (rest_sorted kind p o ls)
  rest_sorted-Before q ls b h =
      All-Before q _ (rest_sorted-All (λ r. better kind q r ≡ true) ls b (Before-All q ls h))

  rest_sorted-IsSorted :
      (ls : List Level) → IsSorted kind ls → IsSorted kind (rest_sorted kind p o ls)
  unfolding rest_sorted add_order
  rest_sorted-IsSorted [] h = (tt, tt)
  rest_sorted-IsSorted (m ∷ ms) h = elim (Bool-cases (m.price_ticks == p)) [
    | inl same ↦ rw same h
    | inr other ↦ elim (Bool-cases (better kind m.price_ticks p)) [
      | inl after ↦
          rw (other, after)
            (rest_sorted-Before m.price_ticks ms after h.0, rest_sorted-IsSorted ms h.1)
      | inr before ↦
          let ahead = better-total m.price_ticks other before in
          rw (other, before) ((ahead, Before-trans p m.price_ticks ms ahead h.0), h)
    ]
  ]

  rest_sorted-has_price :
      (q : ℕ) (ls : List Level) → has_price q (rest_sorted kind p o ls) ≡ (q == p) || has_price q ls
  unfolding rest_sorted has_price add_order
  rest_sorted-has_price q [] = ground arith
  rest_sorted-has_price q (m ∷ ms) = ground (arith, rest_sorted-has_price q ms)

  count-rest_sorted :
      (ls : List Level) → count_orders (rest_sorted kind p o ls) ≡ count_orders ls + 1
  unfolding rest_sorted count_orders add_order
  count-rest_sorted [] = omega arith
  count-rest_sorted (m ∷ ms) = ground (arith, count-rest_sorted ms, length-append m.orders (o ∷ []))

  pub rest_order-levels :
      (s : SideBook) → SideOk kind s → (rest_order s p o).levels ≡ rest_sorted kind p o s.levels
  rest_order-levels s ok =
      subst (λ k. (rest_order s p o).levels ≡ rest_sorted k p o s.levels) ok.kind_eq
        (rest_order-sorted s p o (subst (λ k. IsSorted k s.levels) (sym ok.kind_eq) ok.sorted)
          ok.indexed)

  -- The order joins the side, which keeps its invariant.
  pub rest_order-SideOk :
      (s : SideBook) → SideOk kind s → IsResting kind p o → SideOk kind (rest_order s p o)
  rest_order-SideOk s ok r = record {
    kind_eq = rest_order-side s p o ∙ ok.kind_eq;
    sorted = rw (rest_order-levels s ok) (rest_sorted-IsSorted s.levels ok.sorted);
    indexed = λ q.
        rw
          (
            rest_order-index s p o q,
            rest_order-levels s ok,
            rest_sorted-has_price q s.levels,
            ok.indexed q,
          )
          refl;
    levels_ok = rw (rest_order-levels s ok) (rest_sorted-LevelOk kind p o r s.levels ok.levels_ok);
  }

  pub count-rest_order :
      (s : SideBook)
      → SideOk kind s
      → count_orders (rest_order s p o).levels ≡ count_orders s.levels + 1
  count-rest_order s ok = rw (rest_order-levels s ok) (count-rest_sorted s.levels)
