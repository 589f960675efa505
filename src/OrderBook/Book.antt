-- ===== src/OrderBook/Book.antt =====
-- Book, syncPublic, validate and the helpers that Submit and Cancel share.
use tiger_swap.Prelude.{
  ℕ, Bool, true, false, not, ◌&&◌, ◌||◌, Option, none, some, if◌then◌else◌, ltb, leb, ◌==◌,
}
use tiger_swap.Prelude.Int.{ℤ, pos, negsuc, pos_part}
use tiger_swap.Prelude.Word.{
  FloatOps, Float64, is_nan, is_inf, float_lt, float_le, max_int64_float, min_int64_float, to_int64,
}
use tiger_swap.OrderBook.Types.{
  Side, buy, sell, bad_side, OrderType, limit, market, bad_type, Tif, default_tif, gtc, ioc, fok,
  Status, open_status, partially_filled, filled_status, cancelled, rejected, BookError, err_side,
  err_type, err_tif, err_price, err_quantity, qty_range, Order, PairConfig, with_defaults,
  leaves_units, is_buy,
}
use tiger_swap.OrderBook.Side.{SideBook, new_side_book}
use tiger_swap.OrderBook.Tape.{Tape, new_tape, default_trade_history}

pub record Book : Type 0 where
  pub cfg : PairConfig
  pub bids : SideBook
  pub asks : SideBook
  pub last_price_tk : ℕ
  pub open_orders : ℕ
  pub tape : Tape
  pub clock_reads : ℕ

unfoldable pub new_book : PairConfig → Book
new_book cfg = record {
  cfg = with_defaults cfg;
  bids = new_side_book buy;
  asks = new_side_book sell;
  last_price_tk = 0;
  open_orders = 0;
  tape = new_tape default_trade_history;
  clock_reads = 0;
}

-- `float64(cfg.QtyScale)` and `float64(cfg.PriceScale)`, scales that `withDefaults` made positive.
abbrev pub qty_scale : FloatOps → PairConfig → Float64
qty_scale ops cfg = ops.of_int (pos_part cfg.qty_scale)

abbrev pub price_scale : FloatOps → PairConfig → Float64
price_scale ops cfg = ops.of_int (pos_part cfg.price_scale)

-- The status switch of `syncPublic`, from the integer state.
unfoldable pub live_status : Order → Status
live_status o =
    if leaves_units o == 0
    then filled_status
    else if ltb 0 o.filled_units
    then partially_filled
    else open_status

unfoldable pub synced_status : Status → Order → Status
unfolding live_status
synced_status rejected o = rejected
synced_status cancelled o = cancelled
synced_status _ o = live_status o

synced_leaves : FloatOps → PairConfig → Status → Order → Float64
synced_leaves ops cfg cancelled o = 0
synced_leaves ops cfg _ o = ops.div (ops.of_int (leaves_units o)) (qty_scale ops cfg)

unfoldable pub sync_public : FloatOps → PairConfig → Order → Order
unfolding synced_status synced_leaves
sync_public ops cfg o = record o {
  filled = ops.div (ops.of_int o.filled_units) (qty_scale ops cfg);
  leaves = synced_leaves ops cfg o.status o;
  status = synced_status o.status o;
}

-- `none` is an error: the value is not finite, or out of range.
unfoldable pub to_ticks : FloatOps → Float64 → ℕ → Option ℤ
to_ticks ops value scale =
    let scaled = ops.mul value (ops.of_int scale) in
    if is_nan value || is_inf value
    then none
    else if float_lt max_int64_float scaled || float_lt scaled min_int64_float
    then none
    else some (to_int64 (ops.round scaled))

-- `err != nil || n <= 0` is the error of both callers.
unfoldable pub positive_ticks : Option ℤ → Option ℕ
positive_ticks none = none
positive_ticks (some (pos n)) = if n == 0 then none else some n
positive_ticks (some (negsuc n)) = none

unfoldable pub valid_side : Side → Bool
valid_side bad_side = false
valid_side _ = true

unfoldable pub valid_type : OrderType → Bool
valid_type bad_type = false
valid_type _ = true

unfoldable pub valid_tif : Tif → Bool
valid_tif gtc = true
valid_tif ioc = true
valid_tif fok = true
valid_tif _ = false

unfoldable pub tif_or_gtc : Tif → Tif
tif_or_gtc default_tif = gtc
tif_or_gtc t = t

-- A market order cannot rest.
unfoldable pub tif_for : OrderType → Tif → Tif
tif_for market gtc = ioc
tif_for _ t = t

-- The guard on a quantity or a price: NaN, infinite, zero or negative.
unfoldable pub not_positive : Float64 → Bool
not_positive q = is_nan q || is_inf q || float_le q 0

-- The listed range; a bound that is not positive is not set.
unfoldable pub out_of_range : PairConfig → Float64 → Bool
out_of_range cfg q =
    (float_lt 0 cfg.min_quantity && float_lt q cfg.min_quantity)
    || (float_lt 0 cfg.max_quantity && float_lt cfg.max_quantity q)

-- The outcome of `validate`: the order as it was left, and the error if there is one.
abbrev pub Validated : Type 0
Validated = Order × Option BookError

unfoldable pub set_ticks : Order → Option ℕ → Validated
set_ticks o none = (o, some err_price)
set_ticks o (some ticks) = (record o { price_ticks = ticks }, none)

unfoldable pub validate_price : FloatOps → PairConfig → Order → OrderType → Validated
unfolding set_ticks to_ticks positive_ticks
validate_price ops cfg o limit =
    if not_positive o.price
    then (o, some err_price)
    else set_ticks o (positive_ticks (to_ticks ops o.price (pos_part cfg.price_scale)))
validate_price ops cfg o _ = (record o { price_ticks = 0 }, none)

unfoldable pub set_units : FloatOps → PairConfig → Order → Option ℕ → Validated
unfolding validate_price
set_units ops cfg o none = (o, some err_quantity)
set_units ops cfg o (some units) =
    validate_price ops cfg (record o { qty_units = units; filled_units = 0 }) o.order_type

unfoldable pub validate_quantity : FloatOps → PairConfig → Order → Validated
unfolding set_units to_ticks positive_ticks
validate_quantity ops cfg o =
    if not_positive o.quantity
    then (o, some err_quantity)
    else if out_of_range cfg o.quantity
    then (o, some qty_range)
    else set_units ops cfg o (positive_ticks (to_ticks ops o.quantity (pos_part cfg.qty_scale)))

unfoldable pub validate : FloatOps → PairConfig → Order → Validated
validate ops cfg o =
    let t = tif_or_gtc o.tif in
    if not (valid_side o.side)
    then (o, some err_side)
    else if not (valid_type o.order_type)
    then (o, some err_type)
    else if not (valid_tif t)
    then (record o { tif = t }, some err_tif)
    else validate_quantity ops cfg (record o { tif = tif_for o.order_type t })

-- The side that an order of the given side rests on, and the book with that side replaced.
unfoldable pub side_for : Book → Side → SideBook
side_for b buy = b.bids
side_for b _ = b.asks

unfoldable pub with_side : Book → Side → SideBook → Book
with_side b buy s = record b { bids = s }
with_side b _ s = record b { asks = s }

unfoldable pub crosses_as : OrderType → Bool → ℕ → ℕ → Bool
crosses_as market buying p r = true
crosses_as _ true p r = leb r p
crosses_as _ false p r = leb p r

-- Whether the limit of an incoming order lets it trade at a resting price.
unfoldable pub crosses : Order → ℕ → Bool
unfolding crosses_as
crosses o resting = crosses_as o.order_type (is_buy o.side) o.price_ticks resting
