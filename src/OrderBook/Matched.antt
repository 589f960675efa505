-- ===== src/OrderBook/Matched.antt =====
-- The book after `match` is valid again, and its two sides are still apart.
use tiger_swap.Prelude.{ℕ, ◌<◌, ◌≡◌, refl, ◌⊎◌, true, arith, All-map, ap, ◌∙◌, subst}
use tiger_swap.Prelude.Word.{half_word}
use tiger_swap.OrderBook.Types.{Side, buy, sell, bad_side, Order, Env, leaves_units, opposite_side}
use tiger_swap.OrderBook.Book.{Book, side_for, with_side, valid_side}
use tiger_swap.OrderBook.Match.{
  MatchState, start_match, run_match, end_match, match_order, written_back,
}
use tiger_swap.OrderBook.Invariant.{count_orders, SideOk}
use tiger_swap.OrderBook.Runs.{SameTaker}
use tiger_swap.OrderBook.Loops.{Blocked, MatchDone}
use tiger_swap.OrderBook.Volume.{Counts, Gains}
use tiger_swap.OrderBook.Matching.{
  Prices, BookOk, Kept, Reach-Kept, Reach-Prices, run_match-MatchDone,
}

-- An order that passed the validation.
pub record Incoming (o : Order) : Type 0 where
  pub side_valid : valid_side o.side ≡ true
  pub fresh : o.filled_units ≡ 0
  pub positive : 0 < o.qty_units
  pub small : o.qty_units < half_word

pub record Matched (b : Book) (o : Order) (s : MatchState) : Type 0 where
  pub book_ok : BookOk s.book
  pub cfg : s.book.cfg ≡ b.cfg
  pub same : SameTaker (start_match b o) s
  pub gains : Gains o.filled_units s
  pub over :
      (leaves_units s.taker ≡ 0) ⊎ Blocked s.taker (side_for s.book (opposite_side o.side)).levels

abbrev end_as : MatchState → Side → MatchState
end_as r side = record r { book = written_back r side }

module _ (b : Book) (o : Order) (ok : BookOk b) (r : MatchState) where
  end-as : SameTaker (start_match b o) r → end_match r ≡ end_as r (opposite_side o.side)
  unfolding end_match
  end-as same = ap (λ sd. end_as r (opposite_side sd)) same.side

  -- The asks were taken from, and are written back.
  end-buy :
      Kept sell (start_match b o) r
      → Counts (count_orders b.bids.levels) r
      → Prices (λ a. Prices (λ b. b < a) b.bids.levels) r.opposite.levels
      → BookOk (written_back r sell)
  unfolding written_back with_side
  end-buy k c apart = record {
    bids = rw k.frame.bids ok.bids;
    asks = k.side_ok;
    counts = rw (k.frame.bids) (omega arith);
    apart = rw k.frame.bids apart;
  }

  end-sell :
      Kept buy (start_match b o) r
      → Counts (count_orders b.asks.levels) r
      → Prices (λ a. Prices (λ b. b < a) r.opposite.levels) b.asks.levels
      → BookOk (written_back r buy)
  unfolding written_back with_side
  end-sell k c apart = record {
    bids = k.side_ok;
    asks = rw k.frame.asks ok.asks;
    counts = rw (k.frame.asks) (omega arith);
    apart = rw k.frame.asks apart;
  }

end-SameTaker : {s r : MatchState} (sd : Side) → SameTaker s r → SameTaker s (end_as r sd)
end-SameTaker sd k = record {
  trader = k.trader;
  side = k.side;
  order_type = k.order_type;
  tif = k.tif;
  price_ticks = k.price_ticks;
  qty_units = k.qty_units;
  order_id = k.order_id;
  status = k.status;
}

end-Gains : {n : ℕ} {r : MatchState} (sd : Side) → Gains n r → Gains n (end_as r sd)
end-Gains sd g = record { gained = g.gained; within = g.within }

pub opposite_kind :
    (o : Order) → valid_side o.side ≡ true → valid_side (opposite_side o.side) ≡ true
unfolding opposite_side valid_side
opposite_kind o v = ground arith

pub side_for-SideOk :
    (b : Book) (sd : Side) → BookOk b → valid_side sd ≡ true → SideOk sd (side_for b sd)
unfolding side_for valid_side
side_for-SideOk b buy ok v = ok.bids
side_for-SideOk b sell ok v = ok.asks
side_for-SideOk b bad_side ok v = absurd (cc)

written_back-side : (r : MatchState) (sd : Side) → side_for (written_back r sd) sd ≡ r.opposite
unfolding side_for written_back with_side
written_back-side r buy = refl
written_back-side r sell = refl
written_back-side r bad_side = refl

written_back-cfg : (r : MatchState) (sd : Side) → (written_back r sd).cfg ≡ r.book.cfg
unfolding written_back with_side
written_back-cfg r buy = refl
written_back-cfg r _ = refl

module _ (env : Env) (b : Book) (o : Order) (ok : BookOk b) (i : Incoming o) where
  pub done_run : MatchDone env (start_match b o) (run_match env b o)
  done_run =
      run_match-MatchDone env (opposite_side o.side) b o
        (side_for-SideOk b _ ok (opposite_kind o i.side_valid))

  pub Kept-run : Kept (opposite_side o.side) (start_match b o) (run_match env b o)
  Kept-run =
      Reach-Kept (opposite_side o.side) done_run.reach
        (side_for-SideOk b _ ok (opposite_kind o i.side_valid)) refl (omega (arith, i.fresh))

  BookOk-as :
      (sd : Side)
      → opposite_side o.side ≡ sd
      → valid_side sd ≡ true
      → BookOk (written_back (run_match env b o) sd)
  unfolding side_for
  BookOk-as buy e v =
      end-sell b o ok _ (subst (λ k. Kept k (start_match b o) (run_match env b o)) e Kept-run)
        (Kept-run.counts (count_orders b.asks.levels) (rw e (omega (arith, ok.counts))))
        (All-map b.asks.levels ok.apart
          (λ a below. Reach-Prices (λ q. q < a.price_ticks) done_run.reach (rw e below)))
  BookOk-as sell e v =
      end-buy b o ok _ (subst (λ k. Kept k (start_match b o) (run_match env b o)) e Kept-run)
        (Kept-run.counts (count_orders b.bids.levels) (rw e (omega (arith, ok.counts))))
        (Reach-Prices _ done_run.reach (rw e ok.apart))
  BookOk-as bad_side e v = unfold valid_side in absurd (cc)

  pub match_order-Matched : Matched b o (match_order env b o)
  unfolding match_order
  match_order-Matched = rw (end-as b o ok (run_match env b o) Kept-run.same) (record {
    book_ok = BookOk-as (opposite_side o.side) refl (opposite_kind o i.side_valid);
    cfg = written_back-cfg _ (opposite_side o.side) ∙ Kept-run.frame.cfg;
    same = end-SameTaker _ Kept-run.same;
    gains = end-Gains _ Kept-run.gains;
    over = rw (written_back-side (run_match env b o) (opposite_side o.side)) done_run.over;
  })
