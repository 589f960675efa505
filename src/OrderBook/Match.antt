-- ===== src/OrderBook/Match.antt =====
-- Book.match with cancelResting and recordTrade: the incoming order against the opposite side.
use tiger_swap.Prelude.{
  ℕ, zero, suc, Bool, ◌+◌, ◌-◌, true, false, List, [], ◌∷◌, ◌++◌, length, leb, ◌==◌, if◌then◌else◌,
}
use text.Mathlib.Text.{◌==◌ as str_eq}
use tiger_swap.Prelude.Int.{pos_part}
use tiger_swap.Prelude.Word.{sub64}
use tiger_swap.OrderBook.Types.{
  Side, partially_filled, filled_status, Order, Trade, Env, leaves_units, min_int64, opposite_side,
}
use tiger_swap.OrderBook.Side.{Level, SideBook, remove_order, set_level, drop_level}
use tiger_swap.OrderBook.Tape.{push_trade}
use tiger_swap.OrderBook.Book.{
  Book, qty_scale, price_scale, sync_public, side_for, with_side, crosses,
}

-- The variables of the loops: the incoming order, the side that it takes from, the trades so far,
-- and the rest of the book. `opposite` is written back to the book when the loops end.
pub record MatchState : Type 0 where
  pub taker : Order
  pub opposite : SideBook
  pub trades : List Trade
  pub book : Book

-- The inner loop also holds the level `l`. What it writes through that pointer shows in `opposite`.
pub record FillState : Type 0 where
  pub run : MatchState
  pub level : Level

abbrev pub now : Env → Book → ℕ
now env b = env.clock b.clock_reads

abbrev pub tick : Book → Book
tick b = record b { clock_reads = b.clock_reads + 1 }

-- The trade is complete but for its id, which the engine gives to the caller's copy.
unfoldable pub new_trade : Env → Book → Order → Order → ℕ → ℕ → Trade
new_trade env b maker taker price_ticks qty_units =
    let price = env.ops.div (env.ops.of_int price_ticks) (price_scale env.ops b.cfg) in
    let qty = env.ops.div (env.ops.of_int qty_units) (qty_scale env.ops b.cfg) in
    let notional = env.ops.mul price qty in
    let fee =
      λ (bps : ℕ). env.ops.div (env.ops.mul notional (env.ops.of_int bps)) (env.ops.of_int 10000) in
    record {
      trade_id = 0;
      pair = b.cfg.pair;
      maker_id = maker.order_id;
      taker_id = taker.order_id;
      taker_side = taker.side;
      maker = maker.trader;
      taker = taker.trader;
      price = price;
      quantity = qty;
      notional = notional;
      maker_fee = fee (pos_part b.cfg.maker_fee_bps);
      taker_fee = fee (pos_part b.cfg.taker_fee_bps);
      timestamp = now env b;
      price_ticks = price_ticks;
      qty_units = qty_units;
    }

-- The rest of `cancelResting` once the maker has left its level, which is `l` now. The order itself
-- is no longer held by the book.
unfoldable pub cancelled_from : MatchState → Level → FillState
cancelled_from s l =
    let opposite = record s.opposite { levels = set_level l s.opposite.levels } in
    record {
      run = record s {
        opposite = elim l.orders [ [] ↦ drop_level opposite l.price_ticks | _ ∷ _ ↦ opposite ];
        book = tick (record s.book { open_orders = s.book.open_orders - 1 });
      };
      level = l;
    }

unfoldable pub cancel_resting : MatchState → Level → Order → FillState
unfolding cancelled_from
cancel_resting s l maker = cancelled_from s (remove_order l maker.order_id).0

-- The maker after a fill, and the orders left at its level.
unfoldable pub settle_maker : Env → Book → Order → ℕ → Order
settle_maker env b maker time =
    let stamped = record maker { updated_at = time } in
    sync_public env.ops b.cfg (record stamped {
      status = if leaves_units maker == 0 then filled_status else partially_filled;
    })

-- `gone` tells whether the maker has nothing left.
unfoldable pub execute_as : Env → MatchState → Level → Order → List Order → ℕ → Bool → FillState
execute_as env s l maker others qty gone =
    let taker = record s.taker { filled_units = s.taker.filled_units + qty } in
    let maker' = record maker { filled_units = maker.filled_units + qty } in
    let trade = new_trade env s.book maker' taker l.price_ticks qty in
    let settled = settle_maker env s.book maker' trade.timestamp in
    let l' = record l {
      orders = if gone then others else settled ∷ others;
      total_units = sub64 l.total_units qty;
    } in
    record {
      run = record {
        taker = taker;
        opposite = record s.opposite { levels = set_level l' s.opposite.levels };
        trades = s.trades ++ (trade ∷ []);
        book = tick (record s.book {
          tape = push_trade s.book.tape trade;
          open_orders = if gone then s.book.open_orders - 1 else s.book.open_orders;
        });
      };
      level = l';
    }

unfoldable pub execute : Env → MatchState → Level → Order → List Order → ℕ → FillState
unfolding execute_as
execute env s l maker others qty =
    execute_as env s l maker others qty
      (leaves_units (record maker { filled_units = maker.filled_units + qty }) == 0)

-- The body of the inner loop, at the oldest order of the level.
unfoldable pub fill_step : Env → MatchState → Level → Order → List Order → FillState
fill_step env s l maker others =
    let qty = min_int64 (leaves_units s.taker) (leaves_units maker) in
    if str_eq maker.trader s.taker.trader
    then cancel_resting s l maker
    else if leb qty 0
    then cancel_resting s l maker
    else execute env s l maker others qty

-- `for len(l.orders) > 0 && o.leavesUnits() > 0`
unfoldable pub fill_level : ℕ → Env → FillState → FillState
fill_level zero env f = f
fill_level (suc fuel) env f = elim f.level.orders [
  | [] ↦ f
  | maker ∷ others ↦
      if leb (leaves_units f.run.taker) 0
      then f
      else fill_level fuel env (fill_step env f.run f.level maker others)
]

-- `if len(l.orders) == 0 { opposite.dropLevel(l.priceTicks) }`
unfoldable pub settle_level : FillState → MatchState
settle_level f = elim f.level.orders [
  | [] ↦ record f.run { opposite = drop_level f.run.opposite f.level.price_ticks }
  | _ ∷ _ ↦ f.run
]

-- The body of the outer loop. The inner loop makes at most one round for each order of the level.
unfoldable pub match_level : Env → MatchState → Level → MatchState
match_level env s l =
    settle_level (fill_level (suc (length l.orders)) env (record { run = s; level = l }))

-- `for o.leavesUnits() > 0 && len(opposite.levels) > 0`
unfoldable pub match_loop : ℕ → Env → MatchState → MatchState
match_loop zero env s = s
match_loop (suc fuel) env s = elim s.opposite.levels [
  | [] ↦ s
  | l ∷ ls ↦ if leb (leaves_units s.taker) 0 then s else elim (crosses s.taker l.price_ticks) [
    | false ↦ s
    | true ↦ match_loop fuel env (match_level env s l)
  ]
]

abbrev pub last_price : List Trade → ℕ → ℕ
last_price [] p = p
last_price (t ∷ ts) p = last_price ts t.price_ticks

abbrev pub start_match : Book → Order → MatchState
start_match b o = record {
  taker = o;
  opposite = side_for b (opposite_side o.side);
  trades = [];
  book = b;
}

-- The book with the taken side written back, and the price of the last trade.
unfoldable pub written_back : MatchState → Side → Book
written_back s side =
    with_side (record s.book { last_price_tk = last_price s.trades s.book.last_price_tk }) side
      s.opposite

unfoldable pub end_match : MatchState → MatchState
unfolding written_back
end_match s = record s { book = written_back s (opposite_side s.taker.side) }

-- The outer loop makes at most one round for each level: a round empties its level or fills the order.
unfoldable pub run_match : Env → Book → Order → MatchState
run_match env b o = let s = start_match b o in match_loop (suc (length s.opposite.levels)) env s

unfoldable pub match_order : Env → Book → Order → MatchState
match_order env b o = end_match (run_match env b o)
