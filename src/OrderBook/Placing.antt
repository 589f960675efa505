-- ===== src/OrderBook/Placing.antt =====
-- The end of Submit: an order that is left over rests where it does not cross, or is killed.
use tiger_swap.Prelude.{
  ℕ, ◌+◌, ◌<◌, ◌≡◌, refl, inl, inr, true, false, List, [], ◌∷◌, none, arith, sym, subst, Bool-cases,
  leb,
}
use tiger_swap.Prelude.Word.{half_word}
use tiger_swap.OrderBook.Types.{
  Side, buy, sell, bad_side, limit, cancelled, Order, Env, leaves_units, opposite_side, is_buy,
}
use tiger_swap.OrderBook.Side.{Level, rest_order, better}
use tiger_swap.OrderBook.Book.{
  Book, sync_public, crosses, crosses_as, side_for, with_side, valid_side,
}
use tiger_swap.OrderBook.Match.{MatchState}
use tiger_swap.OrderBook.Submit.{place, can_rest}
use tiger_swap.OrderBook.Invariant.{IsResting, IsSorted, Before}
use tiger_swap.OrderBook.Loops.{Blocked}
use tiger_swap.OrderBook.Placement.{rest_sorted}
use tiger_swap.OrderBook.Resting.{
  rest_order-SideOk, rest_order-levels, count-rest_order, rest_sorted-All,
}
use tiger_swap.OrderBook.Matching.{Prices, BookOk}
use tiger_swap.OrderBook.Matched.{Incoming, Matched}

beyond-sell : (p q : ℕ) (ls : List Level) → p < q → Before sell q ls → Prices (λ a. p < a) ls
unfolding better
beyond-sell p q [] h b = tt
beyond-sell p q (l ∷ ls) h b = (ground arith, beyond-sell p q ls h b.1)

beyond-buy : (p q : ℕ) (ls : List Level) → q < p → Before buy q ls → Prices (λ a. a < p) ls
unfolding better
beyond-buy p q [] h b = tt
beyond-buy p q (l ∷ ls) h b = (ground arith, beyond-buy p q ls h b.1)

-- Past a resting price that a limit order does not reach, it reaches none.
Blocked-buy :
    (o : Order) (ls : List Level)
    → o.order_type ≡ limit
    → o.side ≡ buy
    → IsSorted sell ls
    → Blocked o ls
    → Prices (λ a. o.price_ticks < a) ls
unfolding crosses crosses_as is_buy better
Blocked-buy o [] t s h b = tt
Blocked-buy o (l ∷ ls) t s h b =
    let first : o.price_ticks < l.price_ticks = ground arith in
    (first, beyond-sell _ _ ls first h.0)

Blocked-sell :
    (o : Order) (ls : List Level)
    → o.order_type ≡ limit
    → o.side ≡ sell
    → IsSorted buy ls
    → Blocked o ls
    → Prices (λ a. a < o.price_ticks) ls
unfolding crosses crosses_as is_buy better
Blocked-sell o [] t s h b = tt
Blocked-sell o (l ∷ ls) t s h b =
    let first : l.price_ticks < o.price_ticks = ground arith in (first, beyond-buy _ _ ls first h.0)

synced-IsResting :
    (env : Env) (b : Book) (o : Order)
    → 0 < leaves_units o
    → o.qty_units < half_word
    → IsResting o.side o.price_ticks (sync_public env.ops b.cfg o)
unfolding sync_public leaves_units
synced-IsResting env b o l s = record {
  side = refl;
  at_price = refl;
  live = omega arith;
  small = s;
}

can_rest-limit : (o : Order) → can_rest o ≡ true → o.order_type ≡ limit
unfolding can_rest
can_rest-limit o h = ground arith

-- The book in which `o` has come to rest at its price.
abbrev pub rested : Book → Side → Order → Book
rested b sd o = record (with_side b sd (rest_order (side_for b sd) o.price_ticks o)) {
  open_orders = b.open_orders + 1;
}

module _ (b : Book) (ok : BookOk b) (o : Order) (lim : o.order_type ≡ limit)
    (r : IsResting o.side o.price_ticks o) where
  rested-buy :
      o.side ≡ buy
      → Blocked o b.asks.levels
      → BookOk
          (record b { bids = rest_order b.bids o.price_ticks o; open_orders = b.open_orders + 1 })
  rested-buy e bl =
      let r' = subst (λ k. IsResting k o.price_ticks o) e r in
      record {
        bids = rest_order-SideOk buy o.price_ticks o b.bids ok.bids r';
        asks = ok.asks;
        counts = omega (arith, ok.counts, count-rest_order buy o.price_ticks o b.bids ok.bids);
        apart =
            rw (rest_order-levels buy o.price_ticks o b.bids ok.bids)
              (two b.asks.levels ok.apart (Blocked-buy o b.asks.levels lim e ok.asks.sorted bl));
      }
    where
      two :
          (ls : List Level)
          → Prices (λ a. Prices (λ q. q < a) b.bids.levels) ls
          → Prices (λ a. o.price_ticks < a) ls
          → Prices (λ a. Prices (λ q. q < a) (rest_sorted buy o.price_ticks o b.bids.levels)) ls
      two [] x y = tt
      two (l ∷ ls) x y = (
        rest_sorted-All buy o.price_ticks o (λ q. q < l.price_ticks) b.bids.levels y.0 x.0,
        two ls x.1 y.1,
      )

  rested-sell :
      o.side ≡ sell
      → Blocked o b.bids.levels
      → BookOk
          (record b { asks = rest_order b.asks o.price_ticks o; open_orders = b.open_orders + 1 })
  rested-sell e bl =
      let r' = subst (λ k. IsResting k o.price_ticks o) e r in
      record {
        bids = ok.bids;
        asks = rest_order-SideOk sell o.price_ticks o b.asks ok.asks r';
        counts = omega (arith, ok.counts, count-rest_order sell o.price_ticks o b.asks ok.asks);
        apart = rw (rest_order-levels sell o.price_ticks o b.asks ok.asks) (
            rest_sorted-All sell o.price_ticks o (λ a. Prices (λ q. q < a) b.bids.levels)
              b.asks.levels (Blocked-sell o b.bids.levels lim e ok.bids.sorted bl) ok.apart);
      }

  rested-BookOk :
      (sd : Side)
      → o.side ≡ sd
      → valid_side sd ≡ true
      → Blocked o (side_for b (opposite_side sd)).levels
      → BookOk (rested b sd o)
  unfolding with_side side_for opposite_side valid_side
  rested-BookOk buy e v bl = rested-buy e bl
  rested-BookOk sell e v bl = rested-sell e bl
  rested-BookOk bad_side e v bl = absurd (cc)

-- What the end of Submit does, by the order that matching left: filled, at rest, or killed.
pub place-filled :
    (env : Env) (s : MatchState)
    → leaves_units s.taker ≡ 0
    → place env s ≡ record {
      order = sync_public env.ops s.book.cfg s.taker;
      trades = s.trades;
      error = none;
      book = s.book;
    }
unfolding place
place-filled env s h = ground arith

pub place-rests :
    (env : Env) (s : MatchState)
    → 0 < leaves_units s.taker
    → can_rest s.taker ≡ true
    → place env s ≡ record {
      order = sync_public env.ops s.book.cfg s.taker;
      trades = s.trades;
      error = none;
      book = rested s.book s.taker.side (sync_public env.ops s.book.cfg s.taker);
    }
unfolding place sync_public
place-rests env s h c = ground arith

pub place-killed :
    (env : Env) (s : MatchState)
    → 0 < leaves_units s.taker
    → can_rest s.taker ≡ false
    → place env s ≡ record {
      order = sync_public env.ops s.book.cfg (record s.taker { status = cancelled });
      trades = s.trades;
      error = none;
      book = s.book;
    }
unfolding place
place-killed env s h c = ground arith

module _ (env : Env) (b : Book) (o : Order) (i : Incoming o) (s : MatchState)
    (m : Matched b o s) where
  taker-valid : valid_side s.taker.side ≡ true
  taker-valid = rw m.same.side i.side_valid

  taker-Blocked :
      0 < leaves_units s.taker
      → Blocked s.taker (side_for s.book (opposite_side s.taker.side)).levels
  taker-Blocked left = elim m.over [
    | inl filled ↦ absurd (omega arith)
    | inr blocked ↦
        subst (λ sd. Blocked s.taker (side_for s.book (opposite_side sd)).levels) (sym m.same.side)
          blocked
  ]

  synced-Blocked :
      (ls : List Level) → Blocked s.taker ls → Blocked (sync_public env.ops s.book.cfg s.taker) ls
  unfolding crosses sync_public
  synced-Blocked [] h = tt
  synced-Blocked (l ∷ ls) h = h

  synced-rested :
      0 < leaves_units s.taker
      → can_rest s.taker ≡ true
      → BookOk (rested s.book s.taker.side (sync_public env.ops s.book.cfg s.taker))
  unfolding sync_public
  synced-rested left c =
      rested-BookOk s.book m.book_ok (sync_public env.ops s.book.cfg s.taker)
        (can_rest-limit s.taker c)
        (synced-IsResting env s.book s.taker left (rw m.same.qty_units i.small)) s.taker.side refl
        taker-valid (synced-Blocked _ (taker-Blocked left))

  -- Whatever becomes of the order, the book is valid.
  pub place-BookOk : BookOk (place env s).book
  place-BookOk = elim (Bool-cases (leb (leaves_units s.taker) 0)) [
    | inl filled ↦ rw (place-filled env s (ground arith)) m.book_ok
    | inr left ↦ elim (Bool-cases (can_rest s.taker)) [
      | inl c ↦ rw (place-rests env s (ground arith) c) (synced-rested (ground arith) c)
      | inr c ↦ rw (place-killed env s (ground arith) c) m.book_ok
    ]
  ]
