-- ===== src/OrderBook/Outcome.antt =====
-- What Submit reports: the trades against the order, the queue that they came from, and the refusals.
use tiger_swap.Prelude.{ℕ, ◌≤◌, ◌≡◌, refl, none, arith, All, All-map, ◌∙◌, sym, subst}
use tiger_swap.OrderBook.Types.{Side, Order, Trade, Env, opposite_side}
use tiger_swap.OrderBook.Side.{SideBook}
use tiger_swap.OrderBook.Book.{Book, sync_public, crosses, side_for}
use tiger_swap.OrderBook.Match.{MatchState, start_match, end_match, match_order, tick}
use tiger_swap.OrderBook.Submit.{Submitted, place, reject, submit}
use tiger_swap.OrderBook.Runs.{SameTaker-refl, crosses-SameTaker, Reach-keeps}
use tiger_swap.OrderBook.Volume.{traded_units}
use tiger_swap.OrderBook.Fairness.{
  Fair, FairRun, Step-FairRun, InOrder, Step-InOrder, IsPrefix, maker_ids, queue,
}
use tiger_swap.OrderBook.Matching.{BookOk}
use tiger_swap.OrderBook.Matched.{
  Incoming, match_order-Matched, done_run, side_for-SideOk, opposite_kind,
}
use tiger_swap.OrderBook.Submitting.{stamp, submit-cases, tick-BookOk, Ready-Incoming}

-- The order that Submit returns carries the terms and the fill that matching left.
pub record Placed (s : MatchState) (r : Submitted) : Type 0 where
  pub trades : r.trades ≡ s.trades
  pub error : r.error ≡ none
  pub order_id : r.order.order_id ≡ s.taker.order_id
  pub trader : r.order.trader ≡ s.taker.trader
  pub filled_units : r.order.filled_units ≡ s.taker.filled_units
  pub qty_units : r.order.qty_units ≡ s.taker.qty_units
  pub side : r.order.side ≡ s.taker.side
  pub order_type : r.order.order_type ≡ s.taker.order_type
  pub price_ticks : r.order.price_ticks ≡ s.taker.price_ticks
  pub tif : r.order.tif ≡ s.taker.tif

pub place-Placed : (env : Env) (s : MatchState) → Placed s (place env s)
unfolding place sync_public
place-Placed env s = record {
  trades = ground arith;
  error = ground arith;
  order_id = ground arith;
  trader = ground arith;
  filled_units = ground arith;
  qty_units = ground arith;
  side = ground arith;
  order_type = ground arith;
  price_ticks = ground arith;
  tif = ground arith;
}

pub Placed-crosses :
    (s : MatchState) (r : Submitted) → Placed s r → (p : ℕ) → crosses r.order p ≡ crosses s.taker p
unfolding crosses
Placed-crosses s r h p = ground (arith, h.side, h.order_type, h.price_ticks)

module _ (env : Env) (b : Book) (o : Order) (ok : BookOk b) (i : Incoming o) where
  run-Fair : All (Fair o) (match_order env b o).trades
  unfolding match_order end_match
  run-Fair =
      (Reach-keeps (FairRun (start_match b o)) (Step-FairRun (start_match b o))
        (done_run env b o ok i).reach
        (record { same = SameTaker-refl (start_match b o); fair = tt })).fair

  run_in_order :
      IsPrefix
        (maker_ids (match_order env b o).trades)
        (queue o.trader (side_for b (opposite_side o.side)).levels)
  unfolding match_order end_match
  run_in_order =
      (Reach-keeps
        (InOrder (opposite_side o.side) o.trader
          (queue o.trader (side_for b (opposite_side o.side)).levels))
        (Step-InOrder (opposite_side o.side) o.trader _) (done_run env b o ok i).reach
        (record {
          side_ok = side_for-SideOk b _ ok (opposite_kind o i.side_valid);
          mine = refl;
          front = (queue o.trader (side_for b (opposite_side o.side)).levels, refl);
          remaining = λ w. refl;
        })).front

  Placed-Fair : (x : Trade) → Fair o x → Fair (place env (match_order env b o)).order x
  Placed-Fair x f =
      let p = place-Placed env (match_order env b o) in
      let m = match_order-Matched env b o ok i in
      record {
        taker = f.taker ∙ sym (p.trader ∙ m.same.trader);
        taker_id = f.taker_id ∙ sym (p.order_id ∙ m.same.order_id);
        stranger = λ e. f.stranger (e ∙ p.trader ∙ m.same.trader);
        accepted =
            Placed-crosses _ _ p x.price_ticks
            ∙ crosses-SameTaker m.same x.price_ticks
            ∙ f.accepted;
        positive = f.positive;
      }

-- Reading the clock touches no side.
pub side_for-tick : (b : Book) (sd : Side) → side_for (tick b) sd ≡ side_for b sd
unfolding side_for
side_for-tick b Side.buy = refl
side_for-tick b _ = refl

-- Every trade of a submission is the returned order's, moves a positive quantity, has another trader
-- as its maker, and is at a price that the order's limit accepts.
pub submit-Fair :
    (env : Env) (b : Book) (o : Order)
    → BookOk b
    → All (Fair (submit env b o).order) (submit env b o).trades
unfolding reject
submit-Fair env b o ok =
    submit-cases (λ r. All (Fair r.order) r.trades) env b o (λ o' e. tt) (λ o' r t. tt)
      (λ o' r t.
        let i = Ready-Incoming env b o o' r in
        let ok' = tick-BookOk ok in
        rw (place-Placed env (match_order env (tick b) (stamp env b o'))).trades (
          All-map _ (run-Fair env (tick b) (stamp env b o') ok' i)
            (Placed-Fair env (tick b) (stamp env b o') ok' i)))

-- The makers of a submission's trades are, in this order, the first of the other traders' orders that
-- rest on the opposite side, by price and then by arrival.
pub submit_priority :
    (env : Env) (b : Book) (o : Order)
    → BookOk b
    → IsPrefix
        (maker_ids (submit env b o).trades)
        (queue o.trader (side_for b (opposite_side o.side)).levels)
unfolding reject
submit_priority env b o ok =
    submit-cases
      (λ r.
        IsPrefix (maker_ids r.trades) (queue o.trader (side_for b (opposite_side o.side)).levels))
      env b o (λ o' e. (_, refl)) (λ o' r t. (_, refl))
      (λ o' r t.
        rw
          (
            (place-Placed env (match_order env (tick b) (stamp env b o'))).trades,
            ← r.trader,
            ← r.side,
          )
          (subst
            (λ (sb : SideBook).
              IsPrefix (maker_ids (match_order env (tick b) (stamp env b o')).trades)
                (queue o'.trader sb.levels))
            (side_for-tick b (opposite_side o'.side))
            (run_in_order env (tick b) (stamp env b o') (tick-BookOk ok)
              (Ready-Incoming env b o o' r))))

-- The quantities of an accepted submission's trades add up to what its order has filled, which is no
-- more than its quantity.
pub submit_gains :
    (env : Env) (b : Book) (o : Order)
    → BookOk b
    → (submit env b o).error ≡ none
    → (traded_units (submit env b o).trades ≡ (submit env b o).order.filled_units)
      × ((submit env b o).order.filled_units ≤ (submit env b o).order.qty_units)
unfolding reject
submit_gains env b o ok =
    submit-cases
      (λ r.
        r.error ≡ none
        → (traded_units r.trades ≡ r.order.filled_units)
          × (r.order.filled_units ≤ r.order.qty_units))
      env b o (λ o' e h. absurd (cc)) (λ o' r t h. absurd (cc))
      (λ o' r t h.
        let p = place-Placed env (match_order env (tick b) (stamp env b o')) in
        let g =
          (match_order-Matched env (tick b) (stamp env b o') (tick-BookOk ok)
            (Ready-Incoming env b o o' r)).gains in
        rw (p.trades) (omega (arith, g.gained, g.within, r.fresh, p.filled_units, p.qty_units)))
