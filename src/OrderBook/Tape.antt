-- ===== src/OrderBook/Tape.antt =====
-- The trade tape of a book: the fields trades, tradeStart and tradeCount, pushTrade and Trades.
use tiger_swap.Prelude.{
  ℕ, zero, suc, ◌+◌, ◌-◌, ◌%◌, List, [], ◌∷◌, get_or, set, length, replicate, ltb, ◌==◌, ◌||◌,
  if◌then◌else◌,
}
use tiger_swap.Prelude.Int.{ℤ, pos, negsuc}
use tiger_swap.OrderBook.Types.{Trade, buy}

pub record Tape : Type 0 where
  pub trades : List Trade
  pub trade_start : ℕ
  pub trade_count : ℕ

-- The zero value of Trade, which `make` fills the slice with.
abbrev pub blank_trade : Trade
blank_trade = record {
  trade_id = 0;
  pair = "";
  maker_id = 0;
  taker_id = 0;
  taker_side = buy;
  maker = "";
  taker = "";
  price = 0;
  quantity = 0;
  notional = 0;
  maker_fee = 0;
  taker_fee = 0;
  timestamp = 0;
  price_ticks = 0;
  qty_units = 0;
}

abbrev pub default_trade_history : ℕ
default_trade_history = 5000

-- `make([]Trade, n)`
unfoldable pub new_tape : ℕ → Tape
new_tape n = record { trades = replicate n blank_trade; trade_start = 0; trade_count = 0 }

unfoldable pub push_trade : Tape → Trade → Tape
push_trade t x = record {
  trades = set t.trades t.trade_start x;
  trade_start = (t.trade_start + 1) % length t.trades;
  trade_count = if ltb t.trade_count (length t.trades) then t.trade_count + 1 else t.trade_count;
}

-- The loop of `Trades` from its counter `i`, with `n` rounds left.
unfoldable pub read_trades : List Trade → ℕ → ℕ → ℕ → List Trade
read_trades buf start i zero = []
read_trades buf start i (suc n) =
    get_or buf ((start + i) % length buf) blank_trade ∷ read_trades buf start (i + 1) n

unfoldable pub clamp_limit : ℕ → ℤ → ℕ
clamp_limit count (pos n) = if (n == 0) || ltb count n then count else n
clamp_limit count (negsuc n) = count

unfoldable pub recent_trades : Tape → ℤ → List Trade
recent_trades t limit =
    let n = clamp_limit t.trade_count limit in
    read_trades t.trades ((t.trade_start + length t.trades - n) % length t.trades) 0 n
