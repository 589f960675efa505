-- ===== src/OrderBook/Volume.antt =====
-- What matching does to quantities: the side invariant is kept, open orders are counted right, and the
-- units that the incoming order gains are those of its trades.
use tiger_swap.Prelude.{
  ℕ, suc, ◌+◌, ◌%◌, ◌<◌, ◌≤◌, ◌≡◌, ◌≢◌, refl, List, [], ◌∷◌, ◌++◌, arith, All, ap, ◌∙◌, length,
  subst,
}
use tiger_swap.Prelude.Word.{word, sub64-mod}
use tiger_swap.OrderBook.Types.{Side, Order, Trade, Env, leaves_units}
use tiger_swap.OrderBook.Side.{Level, SideBook}
use tiger_swap.OrderBook.Match.{MatchState, new_trade}
use tiger_swap.OrderBook.Invariant.{IsResting, units, side_units, count_orders, LevelOk, SideOk}
use tiger_swap.OrderBook.Step.{
  Head, put, put-elim, traded, IsReplaced, Trades, SameTerms, Step, cancels, fills, part,
  add_filled,
}
use tiger_swap.OrderBook.Runs.{HasOrders, Ordered, Step-Ordered}

pub leaves-settled :
    (m m' : Order) (qty : ℕ)
    → SameTerms (add_filled m qty) m'
    → qty < leaves_units m
    → leaves_units m' + qty ≡ leaves_units m
unfolding leaves_units
leaves-settled m m' qty st lt = omega (arith, st.qty_units, st.filled_units)

module _ (kind : Side) where
  replaced-LevelOk :
      (s t : SideBook) (l l' : Level) (rest : List Level)
      → s.levels ≡ l ∷ rest
      → IsReplaced s t l' rest
      → (LevelOk kind l → l'.orders ≢ [] → LevelOk kind l')
      → All (LevelOk kind) s.levels
      → All (LevelOk kind) t.levels
  replaced-LevelOk s t l l' rest e r good ok =
      let ok' = subst (All (LevelOk kind)) e ok in
      rw r.levels
        (put-elim (All (LevelOk kind)) l' rest (λ _. ok'.1) (λ ne. (good ok'.0 ne, ok'.1)))

  traded-LevelOk :
      (l : Level) (maker : Order) (others orders : List Order) (qty : ℕ)
      → LevelOk kind l
      → l.orders ≡ maker ∷ others
      → All (IsResting kind l.price_ticks) orders
      → units orders + qty ≡ units l.orders
      → orders ≢ []
      → LevelOk kind (traded l orders qty)
  traded-LevelOk l maker others orders qty ok e r u ne = record {
    nonempty = ne;
    resting = r;
    total =
        rw (ok.total, ← u)
          (sub64-mod (units orders + qty) qty (omega arith) ∙ ap (λ n. n % word) (omega arith));
  }

  settled-IsResting :
      (p : ℕ) (m m' : Order) (qty : ℕ)
      → IsResting kind p m
      → qty < leaves_units m
      → SameTerms (add_filled m qty) m'
      → IsResting kind p m'
  unfolding leaves_units
  settled-IsResting p m m' qty r lt st = record {
    side = ground arith;
    at_price = ground arith;
    live = ground arith;
    small = ground arith;
  }

  Step-LevelOk :
      {env : Env} (s t : MatchState)
      → Step env s t
      → All (LevelOk kind) s.opposite.levels
      → All (LevelOk kind) t.opposite.levels
  unfolding units
  Step-LevelOk s t (cancels l rest m os h w fr tk tr tp op n) =
      replaced-LevelOk s.opposite t.opposite l _ rest h.levels op (λ ok ne.
        let r = subst (All (IsResting kind l.price_ticks)) h.orders ok.resting in
        traded-LevelOk l m os os (leaves_units m) ok h.orders r.1 (rw h.orders (omega arith)) ne)
  Step-LevelOk s t (fills l rest m os h a b fr tr op n) =
      replaced-LevelOk s.opposite t.opposite l _ rest h.levels op (λ ok ne.
        let r = subst (All (IsResting kind l.price_ticks)) h.orders ok.resting in
        traded-LevelOk l m os os (leaves_units m) ok h.orders r.1 (rw h.orders (omega arith)) ne)
  Step-LevelOk s t (part l rest m m' os h a fr tr st op n) =
      replaced-LevelOk s.opposite t.opposite l _ rest h.levels op (λ ok ne.
        let r = subst (All (IsResting kind l.price_ticks)) h.orders ok.resting in
        traded-LevelOk l m os (m' ∷ os) (leaves_units s.taker) ok h.orders
          (settled-IsResting l.price_ticks m m' (leaves_units s.taker) r.0 a st, r.1)
          (rw h.orders (omega (arith, leaves-settled m m' (leaves_units s.taker) st))) ne)

  Step-kind : {env : Env} (s t : MatchState) → Step env s t → t.opposite.side ≡ s.opposite.side
  Step-kind s t (cancels l rest m os h w fr tk tr tp op n) = op.side
  Step-kind s t (fills l rest m os h a b fr tr op n) = op.side
  Step-kind s t (part l rest m m' os h a fr tr st op n) = op.side

  nonempty-levels : (ls : List Level) → All (LevelOk kind) ls → All HasOrders ls
  nonempty-levels [] h = tt
  nonempty-levels (l ∷ ls) h = (h.0.nonempty, nonempty-levels ls h.1)

  pub SideOk-Ordered : {s : MatchState} → SideOk kind s.opposite → Ordered kind s
  SideOk-Ordered {s} ok = record {
    nonempty = nonempty-levels s.opposite.levels ok.levels_ok;
    sorted = ok.sorted;
    indexed = ok.indexed;
  }

  -- A resting order has something left.
  pub Head-IsResting :
      {s : MatchState} {l : Level} {rest : List Level} {m : Order} {os : List Order}
      → Head s l rest m os
      → SideOk kind s.opposite
      → 0 < leaves_units m
  unfolding leaves_units
  Head-IsResting h ok =
      let lv = subst (All (LevelOk kind)) h.levels ok.levels_ok in
      let r = subst (All (IsResting kind _)) h.orders lv.0.resting in omega (arith, r.0.live)

  pub Step-SideOk :
      {env : Env} (s t : MatchState)
      → Step env s t
      → SideOk kind s.opposite
      → SideOk kind t.opposite
  Step-SideOk s t st ok =
      let o = Step-Ordered kind s t st (SideOk-Ordered ok) in
      record {
        kind_eq = Step-kind s t st ∙ ok.kind_eq;
        sorted = o.sorted;
        indexed = o.indexed;
        levels_ok = Step-LevelOk s t st ok.levels_ok;
      }

pub length-put :
    (l' : Level) (rest : List Level)
    → count_orders (put l' rest) ≡ length l'.orders + count_orders rest
unfolding count_orders
length-put l' rest =
    put-elim (λ ls. count_orders ls ≡ length l'.orders + count_orders rest) l' rest
      (λ e. omega (arith, ap length e)) (λ _. refl)

pub units-put :
    (l' : Level) (rest : List Level) → side_units (put l' rest) ≡ units l'.orders + side_units rest
unfolding side_units units
units-put l' rest =
    put-elim (λ ls. side_units ls ≡ units l'.orders + side_units rest) l' rest
      (λ e. rw e (omega arith)) (λ _. refl)

-- The book counts `k` open orders besides those of this side.
abbrev pub Counts : ℕ → MatchState → Type 0
Counts k s = s.book.open_orders ≡ count_orders s.opposite.levels + k

module _ (k : ℕ) where
  count-replaced :
      (s t : SideBook) (l l' : Level) (rest : List Level) (m : Order) (os : List Order)
      → s.levels ≡ l ∷ rest
      → l.orders ≡ m ∷ os
      → IsReplaced s t l' rest
      → count_orders t.levels + suc (length os) ≡ count_orders s.levels + length l'.orders
  unfolding count_orders
  count-replaced s t l l' rest m os e q r =
      rw (r.levels, e) (omega (arith, length-put l' rest, ap length q))

  pub Step-Counts : {env : Env} (s t : MatchState) → Step env s t → Counts k s → Counts k t
  Step-Counts s t (cancels l rest m os h w fr tk tr tp op n) c =
      omega (arith, count-replaced s.opposite t.opposite l _ rest m os h.levels h.orders op)
  Step-Counts s t (fills l rest m os h a b fr tr op n) c =
      omega (arith, count-replaced s.opposite t.opposite l _ rest m os h.levels h.orders op)
  Step-Counts s t (part l rest m m' os h a fr tr st op n) c =
      omega (arith, count-replaced s.opposite t.opposite l _ rest m os h.levels h.orders op)

unfoldable pub traded_units : List Trade → ℕ
traded_units [] = 0
traded_units (t ∷ ts) = t.qty_units + traded_units ts

pub traded_units-append :
    (ts us : List Trade) → traded_units (ts ++ us) ≡ traded_units ts + traded_units us
unfolding traded_units
traded_units-append [] us = omega arith
traded_units-append (t ∷ ts) us = omega (arith, traded_units-append ts us)

-- What the order has gained since it had `f` filled is what its trades moved, and never too much.
pub record Gains (f : ℕ) (s : MatchState) : Type 0 where
  pub gained : s.taker.filled_units ≡ f + traded_units s.trades
  pub within : s.taker.filled_units ≤ s.taker.qty_units

Trades-Gains :
    {env : Env} (f : ℕ) (s t : MatchState) (l : Level) (m : Order) (qty : ℕ)
    → Trades env s t l m qty
    → qty ≤ leaves_units s.taker
    → Gains f s
    → Gains f t
unfolding leaves_units new_trade traded_units
Trades-Gains {env} f s t l m qty tr le g = record {
  gained = omega (
    arith,
    ap (λ (o : Order). o.filled_units) tr.taker,
    ap traded_units tr.trades,
    traded_units-append s.trades
        (new_trade env s.book (add_filled m qty) (add_filled s.taker qty) l.price_ticks qty ∷ []),
  );
  within = omega (
    arith,
    ap (λ (o : Order). o.filled_units) tr.taker,
    ap (λ (o : Order). o.qty_units) tr.taker,
  );
}

pub Step-Gains : {env : Env} (f : ℕ) (s t : MatchState) → Step env s t → Gains f s → Gains f t
Step-Gains f s t (cancels l rest m os h w fr tk tr tp op n) g = ground (arith, g.gained, g.within)
Step-Gains f s t (fills l rest m os h a b fr tr op n) g = Trades-Gains f s t l m _ tr b g
Step-Gains f s t (part l rest m m' os h a fr tr st op n) g =
    Trades-Gains f s t l m _ tr (omega arith) g
