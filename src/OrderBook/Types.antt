-- ===== src/OrderBook/Types.antt =====
-- The data of book.go: orders, trades, levels, the pair's configuration, the errors.
-- A string that the code only compares with its own constants is an enumeration with one more
-- constructor for every other string. int64 fields that `validate` makes positive are numbers.
use tiger_swap.Prelude.{ℕ, ◌-◌, Bool, true, false, String, if◌then◌else◌, ◌==◌, ltb}
use tiger_swap.Prelude.Int.{ℤ, pos, negsuc}
use tiger_swap.Prelude.Word.{Float64, FloatOps}

pub data Side : Type 0 where
  buy sell bad_side : Side

pub data OrderType : Type 0 where
  limit market bad_type : OrderType

-- `default_tif` is the empty string.
pub data Tif : Type 0 where
  default_tif gtc ioc fok bad_tif : Tif

-- `no_status` is the empty string that a fresh order carries, or any other.
pub data Status : Type 0 where
  no_status open_status partially_filled filled_status cancelled rejected : Status

pub data BookError : Type 0 where
  unknown_pair err_side err_type err_tif err_price err_quantity qty_range : BookError
  unknown_order not_owner no_liquidity pair_required : BookError

pub record Order : Type 0 where
  pub order_id : ℕ
  pub trader : String
  pub pair : String
  pub side : Side
  pub order_type : OrderType
  pub tif : Tif
  pub price : Float64
  pub quantity : Float64
  pub filled : Float64
  pub leaves : Float64
  pub status : Status
  pub created_at : ℕ
  pub updated_at : ℕ
  pub price_ticks : ℕ
  pub qty_units : ℕ
  pub filled_units : ℕ

pub record Trade : Type 0 where
  pub trade_id : ℕ
  pub pair : String
  pub maker_id : ℕ
  pub taker_id : ℕ
  pub taker_side : Side
  pub maker : String
  pub taker : String
  pub price : Float64
  pub quantity : Float64
  pub notional : Float64
  pub maker_fee : Float64
  pub taker_fee : Float64
  pub timestamp : ℕ
  pub price_ticks : ℕ
  pub qty_units : ℕ

-- One aggregated price level, as `Depth` reports it.
pub record DepthLevel : Type 0 where
  pub price : Float64
  pub quantity : Float64
  pub orders : ℕ

pub record PairConfig : Type 0 where
  pub pair : String
  pub price_scale : ℤ
  pub qty_scale : ℤ
  pub maker_fee_bps : ℤ
  pub taker_fee_bps : ℤ
  pub min_quantity : Float64
  pub max_quantity : Float64

-- What the code reads of its surroundings: float64 arithmetic, and the wall clock, whose n-th
-- reading is `clock n`.
pub record Env : Type 0 where
  pub ops : FloatOps
  pub clock : ℕ → ℕ

abbrev pub default_scale : ℕ
default_scale = 100_000_000

-- A field that must be positive gets the default, one that must not be negative gets 0.
positive_or : ℕ → ℤ → ℤ
positive_or d (pos n) = if n == 0 then pos d else pos n
positive_or d (negsuc n) = pos d

nonnegative : ℤ → ℤ
nonnegative (pos n) = pos n
nonnegative (negsuc n) = pos 0

unfoldable pub with_defaults : PairConfig → PairConfig
unfolding positive_or nonnegative
with_defaults c = record c {
  price_scale = positive_or default_scale c.price_scale;
  qty_scale = positive_or default_scale c.qty_scale;
  maker_fee_bps = nonnegative c.maker_fee_bps;
  taker_fee_bps = nonnegative c.taker_fee_bps;
}

-- `filledUnits` never exceeds `qtyUnits` (OrderBook.Invariant), so the difference is exact.
unfoldable pub leaves_units : Order → ℕ
leaves_units o = o.qty_units - o.filled_units

unfoldable pub min_int64 : ℕ → ℕ → ℕ
min_int64 a b = if ltb a b then a else b

unfoldable pub opposite_side : Side → Side
opposite_side buy = sell
opposite_side _ = buy

unfoldable pub is_buy : Side → Bool
is_buy buy = true
is_buy _ = false
