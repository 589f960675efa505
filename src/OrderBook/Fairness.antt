-- ===== src/OrderBook/Fairness.antt =====
-- Who trades, and in which order: every trade is with another trader, at a price the order accepts,
-- and the makers are taken by price and then by arrival.
use tiger_swap.Prelude.{
  ℕ, ◌<◌, ◌≡◌, ◌≢◌, refl, ◌⊎◌, inl, inr, true, false, List, [], ◌∷◌, ◌++◌, map, arith, All,
  All-append, ap, ◌∙◌, sym, subst, String, if◌then◌else◌,
}
use mathlib.Core.List.{append_assoc, map-append}
use text.Mathlib.Text.{◌==◌ as str_eq}
use text.Mathlib.TextEquality.{eq_iff}
use tiger_swap.OrderBook.Types.{Side, Order, Trade, Env, leaves_units}
use tiger_swap.OrderBook.Side.{Level}
use tiger_swap.OrderBook.Book.{crosses}
use tiger_swap.OrderBook.Match.{MatchState, new_trade}
use tiger_swap.OrderBook.Invariant.{SideOk}
use tiger_swap.OrderBook.Step.{
  put, put-elim, shorter, IsReplaced, Head, Trades, Step, cancels, fills, part, add_filled, own,
}
use tiger_swap.OrderBook.Runs.{SameTaker, Step-SameTaker, crosses-SameTaker}
use tiger_swap.OrderBook.Volume.{Step-SideOk, Head-IsResting}

-- A trade that the incoming order `o` may make.
pub record Fair (o : Order) (x : Trade) : Type 0 where
  pub taker : x.taker ≡ o.trader
  pub taker_id : x.taker_id ≡ o.order_id
  pub stranger : x.maker ≢ o.trader
  pub accepted : crosses o x.price_ticks ≡ true
  pub positive : 0 < x.qty_units

pub record FairRun (s₀ s : MatchState) : Type 0 where
  pub same : SameTaker s₀ s
  pub fair : All (Fair s₀.taker) s.trades

module _ (s₀ : MatchState) where
  pub SameTaker-trans : {s t : MatchState} → SameTaker s₀ s → SameTaker s t → SameTaker s₀ t
  SameTaker-trans a b = ground arith

  Trades-Fair :
      {env : Env} (s t : MatchState) (l : Level) (rest : List Level) (m : Order) (os : List Order)
      (qty : ℕ)
      → Head s l rest m os
      → Trades env s t l m qty
      → 0 < qty
      → FairRun s₀ s
      → All (Fair s₀.taker) t.trades
  unfolding new_trade
  Trades-Fair {env} s t l rest m os qty h tr pos g = rw tr.trades (
      All-append (Fair s₀.taker) s.trades _ g.fair (
        record {
          taker = g.same.trader;
          taker_id = g.same.order_id;
          stranger = λ e. let t = (eq_iff m.trader s.taker.trader).1 (e ∙ sym g.same.trader) in cc;
          accepted = sym (crosses-SameTaker g.same l.price_ticks) ∙ h.crossing;
          positive = pos;
        },
        tt,
      ))

  Step-Fair :
      {env : Env} (s t : MatchState) → Step env s t → FairRun s₀ s → All (Fair s₀.taker) t.trades
  Step-Fair s t (cancels l rest m os h w fr tk tr tp op n) g = rw tr g.fair
  Step-Fair s t (fills l rest m os h a b fr tr op n) g = Trades-Fair s t l rest m os _ h tr a g
  Step-Fair s t (part l rest m m' os h a fr tr st op n) g =
      Trades-Fair s t l rest m os _ h tr h.wants g

  pub Step-FairRun : {env : Env} (s t : MatchState) → Step env s t → FairRun s₀ s → FairRun s₀ t
  Step-FairRun s t st g = record {
    same = SameTaker-trans g.same (Step-SameTaker s t st);
    fair = Step-Fair s t st g;
  }

-- The ids of the orders of other traders, by price and arrival.
pub strangers : String → List Order → List ℕ
strangers trader [] = []
strangers trader (o ∷ os) =
    if str_eq o.trader trader then strangers trader os else o.order_id ∷ strangers trader os

pub queue : String → List Level → List ℕ
queue trader [] = []
queue trader (l ∷ ls) = strangers trader l.orders ++ queue trader ls

queue-put :
    (trader : String) (l : Level) (rest : List Level)
    → queue trader (put l rest) ≡ strangers trader l.orders ++ queue trader rest
unfolding queue strangers
queue-put trader l rest =
    put-elim (λ ls. queue trader ls ≡ strangers trader l.orders ++ queue trader rest) l rest
      (λ e. rw e refl) (λ _. refl)

abbrev pub maker_ids : List Trade → List ℕ
maker_ids ts = map (λ (t : Trade). t.maker_id) ts

abbrev pub IsPrefix : List ℕ → List ℕ → Type 0
IsPrefix xs ys = (rest : List ℕ) × (xs ++ rest ≡ ys)

-- The makers so far are the front of the queue `q`, and while the order is not filled the orders that
-- still rest are the rest of it.
pub record InOrder (kind : Side) (trader : String) (q : List ℕ) (s : MatchState) : Type 0 where
  pub side_ok : SideOk kind s.opposite
  pub mine : s.taker.trader ≡ trader
  pub front : IsPrefix (maker_ids s.trades) q
  pub remaining :
      0 < leaves_units s.taker → maker_ids s.trades ++ queue trader s.opposite.levels ≡ q

module _ (kind : Side) (trader : String) (q : List ℕ) where
  taker_done :
      {env : Env} (s t : MatchState) (l : Level) (m : Order)
      → Trades env s t l m (leaves_units s.taker)
      → ¬ (0 < leaves_units t.taker)
  unfolding leaves_units
  taker_done s t l m tr w =
      omega (
        arith,
        ap (λ (o : Order). o.filled_units) tr.taker,
        ap (λ (o : Order). o.qty_units) tr.taker,
      )

  cancels-InOrder :
      (s t : MatchState) (l : Level) (rest : List Level) (m : Order) (os : List Order)
      → Head s l rest m os
      → (own m s.taker ≡ true) ⊎ (leaves_units m ≡ 0)
      → t.taker ≡ s.taker
      → t.trades ≡ s.trades
      → IsReplaced s.opposite t.opposite (shorter l m os) rest
      → SideOk kind t.opposite
      → InOrder kind trader q s
      → InOrder kind trader q t
  unfolding queue strangers
  cancels-InOrder s t l rest m os h (inr none_left) tk tr op ok g =
      absurd (omega (arith, Head-IsResting kind h g.side_ok))
  cancels-InOrder s t l rest m os h (inl mine) tk tr op ok g = record {
    side_ok = ok;
    mine = ap (λ (o : Order). o.trader) tk ∙ g.mine;
    front = rw tr g.front;
    remaining = λ w. rw (tr, same_queue) (g.remaining h.wants);
  }
    where
      same_queue : queue trader t.opposite.levels ≡ queue trader s.opposite.levels
      same_queue =
          let self = subst (λ r. str_eq m.trader r ≡ true) g.mine mine in
          rw (op.levels, h.levels, h.orders, queue-put trader (shorter l m os) rest, self) refl

  -- The order is filled by this trade, or the rest of the queue is what still rests.
  Trades-InOrder :
      {env : Env} (s t : MatchState) (l : Level) (rest : List Level) (m : Order) (os : List Order)
      (qty : ℕ)
      → Head s l rest m os
      → Trades env s t l m qty
      → SideOk kind t.opposite
      → (0 < leaves_units t.taker
          → queue trader t.opposite.levels ≡ strangers trader os ++ queue trader rest)
      → InOrder kind trader q s
      → InOrder kind trader q t
  unfolding new_trade strangers queue
  Trades-InOrder {env} s t l rest m os qty h tr ok left g = record {
    side_ok = ok;
    mine = ap (λ (o : Order). o.trader) tr.taker ∙ g.mine;
    front = (strangers trader os ++ queue trader rest, so_far);
    remaining = λ w. rw (left w) so_far;
  }
    where
      next : Trade
      next = new_trade env s.book (add_filled m qty) (add_filled s.taker qty) l.price_ticks qty

      head :
          queue trader s.opposite.levels ≡ m.order_id ∷ (strangers trader os ++ queue trader rest)
      head =
          let other = subst (λ r. str_eq m.trader r ≡ false) g.mine tr.stranger in
          rw (h.levels, h.orders, other) refl

      so_far : maker_ids t.trades ++ (strangers trader os ++ queue trader rest) ≡ q
      so_far = rw (tr.trades, map-append, append_assoc) (rw head at (g.remaining h.wants))

  pub Step-InOrder :
      {env : Env} (s t : MatchState)
      → Step env s t
      → InOrder kind trader q s
      → InOrder kind trader q t
  Step-InOrder {env} s t (cancels l rest m os h w fr tk tr tp op n) g =
      cancels-InOrder s t l rest m os h w tk tr op
        (Step-SideOk kind {env = env} s t (cancels l rest m os h w fr tk tr tp op n) g.side_ok) g
  Step-InOrder {env} s t (fills l rest m os h a b fr tr op n) g =
      Trades-InOrder s t l rest m os _ h tr
        (Step-SideOk kind {env = env} s t (fills l rest m os h a b fr tr op n) g.side_ok)
        (λ w. rw op.levels (queue-put trader _ rest)) g
  Step-InOrder {env} s t (part l rest m m' os h a fr tr st op n) g =
      Trades-InOrder s t l rest m os _ h tr
        (Step-SideOk kind {env = env} s t (part l rest m m' os h a fr tr st op n) g.side_ok)
        (λ w. absurd (taker_done s t l m tr w)) g
