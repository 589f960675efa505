-- ===== src/OrderBook/Placement.antt =====
-- insertLevel and add: the index and the binary search put an order where a plain walk of the sorted
-- levels would.
use tiger_swap.Prelude.{
  ℕ, zero, suc, ◌+◌, ◌-◌, ◌/◌, ◌<◌, ◌≤◌, ◌≡◌, refl, inl, inr, Bool, true, false, ◌||◌, List, [],
  ◌∷◌, Option, none, some, arith, ap, ◌∙◌, sym, if◌then◌else◌, Bool-cases, ltb, ◌==◌, length,
}
use tiger_swap.OrderBook.Types.{Side, Order}
use tiger_swap.OrderBook.Side.{
  Level, SideBook, better, better_at, search_level, insert_at, insert_level, new_level, add_order,
  set_level, find_level, rest_order, add_to, update_key,
}
use tiger_swap.OrderBook.Invariant.{Before, IsSorted, Indexed, has_price}

module _ (kind : Side) (p : ℕ) where
  -- How many levels stand before the place of price `p`.
  rank : List Level → ℕ
  rank [] = 0
  rank (l ∷ ls) = if better kind l.price_ticks p then suc (rank ls) else 0

  rank-le : (ls : List Level) → rank ls ≤ length ls
  unfolding rank
  rank-le [] = omega arith
  rank-le (l ∷ ls) = ground (arith, rank-le ls)

  -- Past a level that is not better than `p` none is.
  better_at-after :
      (q : ℕ) (ls : List Level) (i : ℕ)
      → Before kind q ls
      → better kind q p ≡ false
      → better_at kind ls i p ≡ false
  unfolding better_at better
  better_at-after q [] i b h = refl
  better_at-after q (l ∷ ls) zero b h = ground arith
  better_at-after q (l ∷ ls) (suc i) b h = better_at-after q ls i b.1 h

  better_at-rank :
      (ls : List Level) (i : ℕ) → IsSorted kind ls → better_at kind ls i p ≡ ltb i (rank ls)
  unfolding better_at rank
  better_at-rank [] i s = ground arith
  better_at-rank (l ∷ ls) zero s = ground arith
  better_at-rank (l ∷ ls) (suc i) s = elim (Bool-cases (better kind l.price_ticks p)) [
    | inl yes_better ↦ rw yes_better (ground (arith, better_at-rank ls i s.1))
    | inr not_better ↦
        rw not_better (ground (arith, better_at-after l.price_ticks ls i s.0 not_better))
  ]

  -- The binary search finds that place, and its fuel suffices.
  search_level-rank :
      (fuel : ℕ) (ls : List Level) (lo hi : ℕ)
      → IsSorted kind ls
      → hi - lo < fuel
      → lo ≤ rank ls
      → rank ls ≤ hi
      → search_level fuel kind ls p lo hi ≡ rank ls
  unfolding search_level
  search_level-rank zero ls lo hi s f a b = absurd (omega arith)
  search_level-rank (suc fuel) ls lo hi s f a b = ground (
    arith,
    better_at-rank ls ((lo + hi) / 2) s,
    search_level-rank fuel ls ((lo + hi) / 2 + 1) hi s,
    search_level-rank fuel ls lo ((lo + hi) / 2) s,
  )

  -- A new level at its place in the sorted list.
  insert_sorted : Level → List Level → List Level
  insert_sorted l [] = l ∷ []
  insert_sorted l (m ∷ ms) =
      if better kind m.price_ticks p then m ∷ insert_sorted l ms else l ∷ m ∷ ms

  insert_at-rank : (l : Level) (ls : List Level) → insert_at (rank ls) l ls ≡ insert_sorted l ls
  unfolding insert_at rank insert_sorted
  insert_at-rank l [] = refl
  insert_at-rank l (m ∷ ms) = ground (arith, insert_at-rank l ms)

-- The reference: walk the levels, join the level of the price or make it in its place.
unfoldable pub rest_sorted : Side → ℕ → Order → List Level → List Level
rest_sorted kind p o [] = add_order (new_level p) o ∷ []
rest_sorted kind p o (m ∷ ms) =
    if m.price_ticks == p
    then add_order m o ∷ ms
    else if better kind m.price_ticks p
    then m ∷ rest_sorted kind p o ms
    else add_order (new_level p) o ∷ m ∷ ms

==_refl : (n : ℕ) → (n == n) ≡ true
==_refl n = ground arith

module _ (kind : Side) (p : ℕ) (o : Order) where
  add_found : List Level → Option Level → List Level
  add_found ls none = ls
  add_found ls (some l) = set_level (add_order l o) ls

  add_found-here : (m : Level) (ms : List Level) → add_found (m ∷ ms) (some m) ≡ add_order m o ∷ ms
  unfolding add_found set_level add_order
  add_found-here m ms = ground arith

  find_level-price : (ls : List Level) (l : Level) → find_level p ls ≡ some l → l.price_ticks ≡ p
  unfolding find_level
  find_level-price [] l e = absurd (cc)
  find_level-price (m ∷ ms) l e = ground (arith, find_level-price ms l)

  -- A level of another price is passed by.
  add_found-skip :
      (m : Level) (ms : List Level) (f : Option Level)
      → ((l : Level) → f ≡ some l → l.price_ticks ≡ p)
      → (m.price_ticks == p) ≡ false
      → add_found (m ∷ ms) f ≡ m ∷ add_found ms f
  unfolding add_found set_level add_order
  add_found-skip m ms none q ne = refl
  add_found-skip m ms (some l) q ne = let e = q l refl in ground arith

  Before-better :
      (q : ℕ) (ls : List Level) → Before kind q ls → has_price p ls ≡ true → better kind q p ≡ true
  unfolding has_price better
  Before-better q [] b h = absurd (cc)
  Before-better q (l ∷ ls) b h = ground (arith, Before-better q ls b.1)

  -- Where the price has a level already.
  add_found-old :
      (ls : List Level)
      → IsSorted kind ls
      → has_price p ls ≡ true
      → add_found ls (find_level p ls) ≡ rest_sorted kind p o ls
  unfolding find_level rest_sorted has_price
  add_found-old [] s h = absurd (cc)
  add_found-old (m ∷ ms) s h = elim (Bool-cases (m.price_ticks == p)) [
    | inl same ↦ rw same (add_found-here m ms)
    | inr other ↦
        let below : has_price p ms ≡ true = ground arith in
        rw (other, Before-better m.price_ticks ms s.0 below)
          (add_found-skip m ms (find_level p ms) (find_level-price ms) other
            ∙ ap (λ ls. m ∷ ls) (add_found-old ms s.1 below))
  ]

  add_found-new :
      (ls : List Level)
      → has_price p ls ≡ false
      → add_found
          (insert_sorted kind p (new_level p) ls)
          (find_level p (insert_sorted kind p (new_level p) ls))
        ≡ rest_sorted kind p o ls
  unfolding find_level rest_sorted has_price insert_sorted
  add_found-new [] h = rw (==_refl p) (add_found-here (new_level p) [])
  add_found-new (m ∷ ms) h =
      let other : (m.price_ticks == p) ≡ false = ground arith in
      let below : has_price p ms ≡ false = ground arith in
      elim (Bool-cases (better kind m.price_ticks p)) [
        | inl after ↦
            rw (after, other)
              (add_found-skip m (insert_sorted kind p (new_level p) ms) _ (find_level-price _) other
                ∙ ap (λ ls. m ∷ ls) (add_found-new ms below))
        | inr before ↦ rw (before, other, ==_refl p) (add_found-here (new_level p) (m ∷ ms))
      ]

module _ (s : SideBook) (p : ℕ) where
  insert_level-old : s.index p ≡ true → insert_level s p ≡ s
  unfolding insert_level
  insert_level-old h = rw h refl

  insert_level-new :
      IsSorted s.side s.levels
      → s.index p ≡ false
      → insert_level s p ≡ record s {
        levels = insert_sorted s.side p (new_level p) s.levels;
        index = update_key s.index p true;
      }
  unfolding insert_level
  insert_level-new sorted h =
      rw
        (
          h,
          search_level-rank s.side p (suc (length s.levels)) s.levels 0 (length s.levels) sorted
              (omega arith) (omega arith) (rank-le s.side p s.levels),
          insert_at-rank s.side p (new_level p) s.levels,
        )
        refl

  insert_level-side : (insert_level s p).side ≡ s.side
  unfolding insert_level
  insert_level-side = ground arith

  insert_level-index : (q : ℕ) → (insert_level s p).index q ≡ (q == p) || s.index q
  unfolding insert_level
  insert_level-index q = ground arith

  module _ (o : Order) where
    add_to-parts :
        (f : Option Level)
        → (t : SideBook)
        → ((add_to t f o).levels ≡ add_found s.side p o t.levels f)
          × ((add_to t f o).side ≡ t.side)
          × ((add_to t f o).index ≡ t.index)
    unfolding add_to add_found
    add_to-parts none t = (refl, refl, refl)
    add_to-parts (some l) t = (refl, refl, refl)

    -- On a sorted side whose index is in step, resting an order by the index and the binary search gives
    -- the levels that a plain walk gives: the order joins last at its price, or at a new level in its place.
    pub rest_order-sorted :
        IsSorted s.side s.levels
        → Indexed s
        → (rest_order s p o).levels ≡ rest_sorted s.side p o s.levels
    unfolding rest_order
    rest_order-sorted sorted ix = elim (Bool-cases (s.index p)) [
      | inl old ↦ rw (insert_level-old old) (
          (add_to-parts (find_level p s.levels) s).0
          ∙ add_found-old s.side p o s.levels sorted (sym (ix p) ∙ old))
      | inr new ↦
          rw (insert_level-new sorted new)
            ((add_to-parts _ _).0 ∙ add_found-new s.side p o s.levels (sym (ix p) ∙ new))
    ]

    pub rest_order-side : (rest_order s p o).side ≡ s.side
    unfolding rest_order
    rest_order-side =
        (add_to-parts (find_level p (insert_level s p).levels) (insert_level s p)).1
        ∙ insert_level-side

    pub rest_order-index : (q : ℕ) → (rest_order s p o).index q ≡ (q == p) || s.index q
    unfolding rest_order
    rest_order-index q =
        ap (λ (f : ℕ → Bool). f q)
          (add_to-parts (find_level p (insert_level s p).levels) (insert_level s p)).2
        ∙ insert_level-index q
