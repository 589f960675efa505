-- ===== src/OrderBook/Submit.antt =====
-- Book.Submit, Book.Cancel and the queries.
use tiger_swap.Prelude.{
  ℕ, ◌+◌, ◌-◌, Bool, true, false, not, ◌&&◌, List, [], ◌∷◌, ◌++◌, map, Option, none, some, length,
  take, leb, ◌==◌, if◌then◌else◌, String,
}
use text.Mathlib.Text.{◌==◌ as str_eq}
use tiger_swap.Prelude.Int.{ℤ, pos, negsuc}
use tiger_swap.Prelude.Word.{Float64, add64, slt64}
use tiger_swap.OrderBook.Types.{
  Side, buy, sell, OrderType, limit, Tif, gtc, fok, rejected, cancelled, BookError, no_liquidity,
  not_owner, unknown_order, Order, Trade, DepthLevel, Env, leaves_units, opposite_side,
}
use tiger_swap.OrderBook.Side.{
  Level, SideBook, rest_order, remove_order, set_level, drop_level, best,
}
use tiger_swap.OrderBook.Tape.{recent_trades}
use tiger_swap.OrderBook.Book.{
  Book, qty_scale, price_scale, sync_public, validate, side_for, with_side, crosses,
}
use tiger_swap.OrderBook.Match.{MatchState, now, tick, match_order}

-- What Submit returns, with the book after it.
pub record Submitted : Type 0 where
  pub order : Order
  pub trades : List Trade
  pub error : Option BookError
  pub book : Book

-- The sum of the levels that the order crosses, in int64 arithmetic.
unfoldable pub available_from : Order → List Level → ℕ → ℕ
available_from o [] total = total
available_from o (l ∷ ls) total =
    let rest = available_from o ls (add64 total l.total_units) in
    if crosses o l.price_ticks then rest else total

unfoldable pub available_units : Book → Order → ℕ
unfolding available_from
available_units b o = available_from o (side_for b (opposite_side o.side)).levels 0

unfoldable pub is_fok : Tif → Bool
is_fok fok = true
is_fok _ = false

unfoldable pub can_rest_as : OrderType → Tif → Bool
can_rest_as limit gtc = true
can_rest_as _ _ = false

unfoldable pub can_rest : Order → Bool
unfolding can_rest_as
can_rest o = can_rest_as o.order_type o.tif

-- The end of Submit. The order that rests is the one that is synced afterwards, by the same pointer.
unfoldable pub place : Env → MatchState → Submitted
place env s =
    let b = s.book in
    let o = s.taker in
    let synced = sync_public env.ops b.cfg o in
    let killed = sync_public env.ops b.cfg (record o { status = cancelled }) in
    if leb (leaves_units o) 0
    then record { order = synced; trades = s.trades; error = none; book = b }
    else if can_rest o
    then record {
      order = synced;
      trades = s.trades;
      error = none;
      book = record (with_side b o.side (rest_order (side_for b o.side) o.price_ticks synced)) {
        open_orders = b.open_orders + 1;
      };
    }
    else record { order = killed; trades = s.trades; error = none; book = b }

unfoldable pub reject : Env → Book → Order → BookError → Submitted
reject env b o e = record {
  order = sync_public env.ops b.cfg (record o { status = rejected });
  trades = [];
  error = some e;
  book = b;
}

-- Submit behind the validation: the clock is read once for both times.
unfoldable pub submit_valid : Env → Book → Order → Submitted
unfolding is_fok available_units
submit_valid env b o =
    let stamped = record o { created_at = now env b; updated_at = now env b } in
    if is_fok o.tif && slt64 (available_units b o) o.qty_units
    then reject env (tick b) stamped no_liquidity
    else place env (match_order env (tick b) stamped)

unfoldable pub submit : Env → Book → Order → Submitted
submit env b o =
    let (owned, error) = validate env.ops b.cfg o in
    elim error [ none ↦ submit_valid env b owned | some e ↦ reject env b owned e ]

-- What Cancel returns, with the book after it.
pub record Cancelled : Type 0 where
  pub result : Option Order
  pub error : Option BookError
  pub book : Book

unfoldable pub find_order : ℕ → List Order → Option Order
find_order id [] = none
find_order id (o ∷ os) = if o.order_id == id then some o else find_order id os

-- The nested loops over the levels of a side, up to the order with the id.
unfoldable pub find_resting : ℕ → List Level → Option (Level × Order)
unfolding find_order
find_resting id [] = none
find_resting id (l ∷ ls) = elim (find_order id l.orders) [
  | some o ↦ some (l, o)
  | none ↦ find_resting id ls
]

unfoldable pub remove_resting : SideBook → Level → ℕ → SideBook
remove_resting s l id =
    let (l', _) = remove_order l id in
    let s' = record s { levels = set_level l' s.levels } in
    elim l'.orders [ [] ↦ drop_level s' l.price_ticks | _ ∷ _ ↦ s' ]

unfoldable pub cancel_found : Env → Book → Side → String → Level → Order → Cancelled
unfolding remove_resting
cancel_found env b side trader l o =
    if not (str_eq o.trader trader)
    then record { result = none; error = some not_owner; book = b }
    else let stopped = record o { status = cancelled; updated_at = now env b } in
      record {
        result = some (sync_public env.ops b.cfg stopped);
        error = none;
        book = tick (record (with_side b side (remove_resting (side_for b side) l o.order_id)) {
          open_orders = b.open_orders - 1;
        });
      }

unfoldable pub cancel : Env → Book → ℕ → String → Cancelled
unfolding find_resting cancel_found
cancel env b id trader = elim (find_resting id b.bids.levels) [
  | some (l, o) ↦ cancel_found env b buy trader l o
  | none ↦ elim (find_resting id b.asks.levels) [
    | some (l, o) ↦ cancel_found env b sell trader l o
    | none ↦ record { result = none; error = some unknown_order; book = b }
  ]
]

unfoldable pub get_order : Book → ℕ → Option Order
unfolding find_resting
get_order b id = elim (find_resting id b.bids.levels) [
  | some (l, o) ↦ some o
  | none ↦ elim (find_resting id b.asks.levels) [ some (l, o) ↦ some o | none ↦ none ]
]

unfoldable pub orders_of : String → List Order → List Order
orders_of trader [] = []
orders_of trader (o ∷ os) =
    if str_eq o.trader trader then o ∷ orders_of trader os else orders_of trader os

unfoldable pub level_orders : List Level → List Order
level_orders [] = []
level_orders (l ∷ ls) = l.orders ++ level_orders ls

unfoldable pub orders_by_trader : Book → String → List Order
unfolding orders_of level_orders
orders_by_trader b trader =
    orders_of trader (level_orders b.bids.levels ++ level_orders b.asks.levels)

depth_level : Env → Book → Level → DepthLevel
depth_level env b l = record {
  price = env.ops.div (env.ops.of_int l.price_ticks) (price_scale env.ops b.cfg);
  quantity = env.ops.div (env.ops.of_int l.total_units) (qty_scale env.ops b.cfg);
  orders = length l.orders;
}

depth_limit : ℤ → ℕ
depth_limit (pos n) = if n == 0 then 20 else n
depth_limit (negsuc n) = 20

unfoldable pub depth : Env → Book → ℤ → List DepthLevel × List DepthLevel
unfolding depth_level depth_limit
depth env b limit_arg =
    let n = depth_limit limit_arg in
    (map (depth_level env b) (take n b.bids.levels), map (depth_level env b) (take n b.asks.levels))

best_price : Env → Book → Option Level → Float64
best_price env b none = 0
best_price env b (some l) = env.ops.div (env.ops.of_int l.price_ticks) (price_scale env.ops b.cfg)

unfoldable pub best_bid : Env → Book → Float64
unfolding best_price
best_bid env b = best_price env b (best b.bids)

unfoldable pub best_ask : Env → Book → Float64
unfolding best_price
best_ask env b = best_price env b (best b.asks)

unfoldable pub last_trade_price : Env → Book → Float64
last_trade_price env b = env.ops.div (env.ops.of_int b.last_price_tk) (price_scale env.ops b.cfg)

unfoldable pub book_trades : Book → ℤ → List Trade
book_trades b limit_arg = recent_trades b.tape limit_arg
