-- ===== src/OrderBook/Rounds.antt =====
-- `fill_step` makes a step of OrderBook.Step, and what it keeps of the level.
use tiger_swap.Prelude.{
  ℕ, ◌-◌, ◌<◌, ◌≤◌, ◌≡◌, refl, ◌⊎◌, inl, inr, Bool, true, false, List, [], ◌∷◌, ◌++◌, arith, leb,
  ltb, ◌==◌, Bool-cases, ap, sym, subst, if◌then◌else◌,
}
use tiger_swap.OrderBook.Types.{Side, Order, Env, leaves_units, min_int64}
use tiger_swap.OrderBook.Side.{Level}
use tiger_swap.OrderBook.Tape.{push_trade}
use tiger_swap.OrderBook.Match.{
  MatchState, FillState, tick, new_trade, settle_maker, cancel_resting, cancelled_from, execute,
  fill_step, settle_level, execute_as,
}
use tiger_swap.OrderBook.Invariant.{Before, Indexed}
use tiger_swap.OrderBook.Step.{
  put, shorter, replaced, remove_order-head, replaced-IsReplaced, drop-replaced, Head, own,
  add_filled, traded, Trades, SameTerms, Step, cancels, fills, part, settle_maker-SameTerms,
}

-- What a round makes of the state and of the level that the inner loop holds.
pub record Round (env : Env) (s : MatchState) (l : Level) (rest : List Level) (others : List Order)
    (f : FillState) : Type 0 where
  pub step : Step env s (settle_level f)
  pub price : f.level.price_ticks ≡ l.price_ticks
  pub levels : (settle_level f).opposite.levels ≡ put f.level rest
  pub shrinks : (f.level.orders ≡ others) ⊎ (leaves_units (settle_level f).taker ≡ 0)

module _ (env : Env) (s : MatchState) (l : Level) (maker : Order) where
  -- The state after a trade that leaves `orders` at the level.
  executed_state : List Order → ℕ → Bool → MatchState
  executed_state orders qty gone =
      let trade =
        new_trade env s.book (add_filled maker qty) (add_filled s.taker qty) l.price_ticks qty in
      record {
        taker = add_filled s.taker qty;
        opposite = replaced s.opposite (traded l orders qty);
        trades = s.trades ++ (trade ∷ []);
        book = tick (record s.book {
          tape = push_trade s.book.tape trade;
          open_orders = if gone then s.book.open_orders - 1 else s.book.open_orders;
        });
      }

  execute-gone :
      (qty : ℕ) (others : List Order)
      → settle_level (execute_as env s l maker others qty true) ≡ executed_state others qty true
  unfolding execute_as settle_level executed_state
  execute-gone qty [] = refl
  execute-gone qty (o ∷ os) = refl

  execute-kept :
      (qty : ℕ) (others : List Order)
      → settle_level (execute_as env s l maker others qty false)
        ≡ executed_state
            (settle_maker env s.book (add_filled maker qty) (env.clock s.book.clock_reads) ∷ others)
            qty
            false
  unfolding execute_as settle_level executed_state new_trade
  execute-kept qty others = refl

taker_filled : (o : Order) → leaves_units (add_filled o (leaves_units o)) ≡ 0
unfolding leaves_units
taker_filled o = omega arith

module _ (env : Env) (kind : Side) (s : MatchState) (l : Level) (rest : List Level) (maker : Order)
    (others : List Order) (h : Head s l rest maker others) (ix : Indexed s.opposite)
    (b : Before kind l.price_ticks rest) where
  cancelled_state : MatchState
  cancelled_state = record s {
    opposite = replaced s.opposite (shorter l maker others);
    book = tick (record s.book { open_orders = s.book.open_orders - 1 });
  }

  cancel-held :
      cancel_resting s l maker ≡ record { run = cancelled_state; level = shorter l maker others }
  unfolding cancel_resting cancelled_from cancelled_state
  cancel-held = ap (cancelled_from s) (remove_order-head l maker others h.orders)

  cancel-settled : settle_level (cancel_resting s l maker) ≡ cancelled_state
  unfolding settle_level cancelled_state
  cancel-settled = rw cancel-held (go others refl)
    where
      go :
          (os : List Order)
          → others ≡ os
          → settle_level (record { run = cancelled_state; level = shorter l maker others })
            ≡ cancelled_state
      go [] e =
          ground (
            arith,
            drop-replaced kind s.opposite l (shorter l maker others) rest h.levels refl ix b,
          )
      go (o ∷ os) e = ground arith

  cancel-Step :
      (own maker s.taker ≡ true) ⊎ (leaves_units maker ≡ 0)
      → Step env s (settle_level (cancel_resting s l maker))
  unfolding cancelled_state
  cancel-Step why = subst (Step env s) (sym cancel-settled) (
      cancels l rest maker others h why
        (record { cfg = refl; bids = refl; asks = refl; last_price = refl }) refl refl refl
        (replaced-IsReplaced kind s.opposite l (shorter l maker others) rest h.levels refl ix b)
        refl)

  cancel-Round :
      (own maker s.taker ≡ true) ⊎ (leaves_units maker ≡ 0)
      → Round env s l rest others (cancel_resting s l maker)
  cancel-Round why = record {
    step = cancel-Step why;
    price = rw cancel-held refl;
    levels = rw cancel-settled (
        rw cancel-held (
          unfold cancelled_state in
          (replaced-IsReplaced kind s.opposite l (shorter l maker others) rest h.levels refl ix
            b).levels));
    shrinks = inl (rw cancel-held refl);
  }

  module _ (stranger : own maker s.taker ≡ false) where
    executed-Trades :
        (qty : ℕ) (orders : List Order) (gone : Bool)
        → Trades env s (executed_state env s l maker orders qty gone) l maker qty
    unfolding executed_state
    executed-Trades qty orders gone = record {
      stranger = stranger;
      taker = refl;
      trades = refl;
      tape = refl;
    }

    fills-Step :
        0 < leaves_units maker
        → leaves_units maker ≤ leaves_units s.taker
        → Step env s (executed_state env s l maker others (leaves_units maker) true)
    unfolding executed_state
    fills-Step some_left le =
        fills l rest maker others h some_left le
          (record { cfg = refl; bids = refl; asks = refl; last_price = refl })
          (executed-Trades (leaves_units maker) others true)
          (replaced-IsReplaced kind s.opposite l (traded l others (leaves_units maker)) rest
            h.levels refl ix b)
          refl

    part-Step :
        (settled : Order)
        → SameTerms (add_filled maker (leaves_units s.taker)) settled
        → leaves_units s.taker < leaves_units maker
        → Step env s (executed_state env s l maker (settled ∷ others) (leaves_units s.taker) false)
    unfolding executed_state
    part-Step settled terms lt =
        part l rest maker settled others h lt
          (record { cfg = refl; bids = refl; asks = refl; last_price = refl })
          (executed-Trades (leaves_units s.taker) (settled ∷ others) false) terms
          (replaced-IsReplaced kind s.opposite l
            (traded l (settled ∷ others) (leaves_units s.taker)) rest h.levels refl ix b)
          refl

    gone-Round :
        0 < leaves_units maker
        → leaves_units maker ≤ leaves_units s.taker
        → Round env s l rest others (execute_as env s l maker others (leaves_units maker) true)
    unfolding execute_as
    gone-Round some_left le = record {
      step =
          subst (Step env s) (sym (execute-gone env s l maker _ others)) (fills-Step some_left le);
      price = refl;
      levels = rw (execute-gone env s l maker (leaves_units maker) others) (
          unfold executed_state in
          (replaced-IsReplaced kind s.opposite l (traded l others (leaves_units maker)) rest
            h.levels refl ix b).levels);
      shrinks = inl refl;
    }

    kept-Round :
        leaves_units s.taker < leaves_units maker
        → Round env s l rest others (execute_as env s l maker others (leaves_units s.taker) false)
    unfolding execute_as settle_level new_trade
    kept-Round lt = record {
      step =
          subst (Step env s) (sym (execute-kept env s l maker _ others))
            (part-Step _ (settle_maker-SameTerms env s.book _ _) lt);
      price = refl;
      levels =
          (replaced-IsReplaced kind s.opposite l
            (traded l
              (settle_maker env s.book (add_filled maker (leaves_units s.taker))
                  (env.clock s.book.clock_reads)
                ∷ others)
              (leaves_units s.taker))
            rest h.levels refl ix b).levels;
      shrinks = inr (taker_filled s.taker);
    }

    execute-Round :
        0 < leaves_units maker
        → Round env s l rest others
            (execute env s l maker others (min_int64 (leaves_units s.taker) (leaves_units maker)))
    unfolding min_int64 execute
    execute-Round some_left = elim (Bool-cases (ltb (leaves_units s.taker) (leaves_units maker))) [
      | inl lt ↦ rw (lt, left_over (ground arith)) (kept-Round (ground arith))
      | inr ge ↦ rw (ge, filled (leaves_units maker) refl) (gone-Round some_left (ground arith))
    ]
      where
        left_over :
            leaves_units s.taker < leaves_units maker
            → (leaves_units (add_filled maker (leaves_units s.taker)) == 0) ≡ false
        left_over lt = unfold leaves_units in ground arith

        filled : (q : ℕ) → q ≡ leaves_units maker → (leaves_units (add_filled maker q) == 0) ≡ true
        filled q e = unfold leaves_units in ground arith

  -- A round of the loops is a step, and empties or keeps the level as the step says.
  pub fill_step-Round : Round env s l rest others (fill_step env s l maker others)
  unfolding fill_step min_int64
  fill_step-Round = elim (Bool-cases (own maker s.taker)) [
    | inl mine ↦ rw mine (cancel-Round (inl mine))
    | inr other ↦
        rw other
          (elim (Bool-cases (leb (min_int64 (leaves_units s.taker) (leaves_units maker)) 0)) [
            | inl none_left ↦ rw none_left (cancel-Round (inr (ground (arith, h.wants))))
            | inr some_left ↦ rw some_left (execute-Round other (ground arith))
          ])
  ]
