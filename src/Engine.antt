-- ===== src/Engine.antt =====
-- Engine of order_matching/orderbook/book.go: every book, the order index and the counters. A Go map is
-- an association list in the order of its insertions; `e.started` and the clock are arguments.
mod Listing
mod Valid
mod Accounting
mod Tests
use tiger_swap.Prelude.{
  ℕ, ◌+◌, ◌*◌, ◌%◌, ◌^◌, Bool, true, false, List, [], ◌∷◌, ◌++◌, map, Option, none, some, length,
  ◌==◌, ◌⊎◌, inl, inr, if◌then◌else◌, String,
}
use text.Mathlib.Text.{◌==◌ as str_eq}
use tiger_swap.Prelude.Word.{FloatOps, Float64, word, float_lt}
use tiger_swap.OrderBook.Types.{
  BookError, unknown_pair, unknown_order, pair_required, Order, Trade, PairConfig, Env,
  with_defaults,
}
use tiger_swap.OrderBook.Book.{Book, new_book}
use tiger_swap.OrderBook.Submit.{Submitted, submit, Cancelled, cancel, get_order}

-- `on_trade` tells that a callback is installed, and `delivered` holds the calls of it, oldest first.
pub record Engine : Type 0 where
  pub books : List (String × Book)
  pub order_pair : List (ℕ × String)
  pub next_order_id : ℕ
  pub next_trade_id : ℕ
  pub on_trade : Bool
  pub delivered : List Trade
  pub submitted : ℕ
  pub traded : ℕ
  pub rejected : ℕ

unfoldable pub find_book : String → List (String × Book) → Option Book
find_book p [] = none
find_book p (kb ∷ kbs) = if str_eq kb.0 p then some kb.1 else find_book p kbs

-- A write under a key that the map has, or a new entry.
unfoldable pub put_book : String → Book → List (String × Book) → List (String × Book)
put_book p b [] = (p, b) ∷ []
put_book p b (kb ∷ kbs) = if str_eq kb.0 p then (kb.0, b) ∷ kbs else kb ∷ put_book p b kbs

unfoldable pub delete_book : String → List (String × Book) → List (String × Book)
delete_book p [] = []
delete_book p (kb ∷ kbs) = if str_eq kb.0 p then kbs else kb ∷ delete_book p kbs

-- The latest write under an id is the first entry.
unfoldable pub find_pair : ℕ → List (ℕ × String) → Option String
find_pair id [] = none
find_pair id (ip ∷ ips) = if ip.0 == id then some ip.1 else find_pair id ips

-- `uint64(time.Now().UnixMilli()) << 20`
unfoldable pub new_engine : ℕ → Engine
new_engine unix_milli =
    let seed = unix_milli * 2 ^ 20 % word in
    record {
      books = [];
      order_pair = [];
      next_order_id = seed;
      next_trade_id = seed;
      on_trade = false;
      delivered = [];
      submitted = 0;
      traded = 0;
      rejected = 0;
    }

unfoldable pub register_pair : PairConfig → Engine → Engine × Option BookError
register_pair cfg e =
    if str_eq cfg.pair "" then (e, some pair_required) else elim (find_book cfg.pair e.books) [
      | some b ↦ (
        record e { books = put_book cfg.pair (record b { cfg = with_defaults cfg }) e.books },
        none,
      )
      | none ↦ (record e { books = put_book cfg.pair (new_book cfg) e.books }, none)
    ]

unfoldable pub unregister_pair : String → Engine → Engine × Bool
unregister_pair p e = elim (find_book p e.books) [
  | some b ↦ (record e { books = delete_book p e.books }, true)
  | none ↦ (e, false)
]

unfoldable pub listed_pairs : Engine → List String
listed_pairs e = map (λ (kb : String × Book). kb.0) e.books

-- What Engine.Submit returns, with the engine after it.
pub record EngineSubmitted : Type 0 where
  pub order : Order
  pub trades : List Trade
  pub error : Option BookError
  pub engine : Engine

-- `trades[i].TradeID = e.nextTradeID.Add(1)` along the slice, from the counter.
unfoldable pub number_trades : ℕ → List Trade → List Trade
number_trades next [] = []
number_trades next (t ∷ ts) =
    let id = (next + 1) % word in record t { trade_id = id } ∷ number_trades id ts

-- The rest of Engine.Submit once the book has answered, `e` with the new order id and book.
unfoldable pub finish_submit : Engine → Submitted → EngineSubmitted
unfolding number_trades
finish_submit e r = elim r.error [
  | some err ↦ record {
    order = r.order;
    trades = [];
    error = some err;
    engine = record e { rejected = (e.rejected + 1) % word };
  }
  | none ↦
      let trades = number_trades e.next_trade_id r.trades in
      record {
        order = r.order;
        trades = trades;
        error = none;
        engine = record e {
          order_pair = (r.order.order_id, r.order.pair) ∷ e.order_pair;
          next_trade_id = (e.next_trade_id + length r.trades) % word;
          submitted = (e.submitted + 1) % word;
          traded = (e.traded + length r.trades) % word;
          delivered = if e.on_trade then e.delivered ++ trades else e.delivered;
        };
      }
]

unfoldable pub submit_order : Env → Order → Engine → EngineSubmitted
unfolding finish_submit
submit_order env o e = elim (find_book o.pair e.books) [
  | none ↦ record {
    order = o;
    trades = [];
    error = some unknown_pair;
    engine = record e { rejected = (e.rejected + 1) % word };
  }
  | some b ↦
      let id = (e.next_order_id + 1) % word in
      let r = submit env b (record o { order_id = id }) in
      finish_submit (record e { next_order_id = id; books = put_book o.pair r.book e.books }) r
]

-- The book that the index names for the id.
unfoldable pub indexed_book : ℕ → Engine → (String × Book) ⊎ BookError
indexed_book id e = elim (find_pair id e.order_pair) [
  | none ↦ inr unknown_order
  | some p ↦ elim (find_book p e.books) [ none ↦ inr unknown_pair | some b ↦ inl (p, b) ]
]

-- The order that Engine.Cancel returns, `none` for the zero Order, its error, and the engine after it.
unfoldable pub cancel_order : Env → ℕ → String → Engine → Option Order × Option BookError × Engine
unfolding indexed_book
cancel_order env id trader e = elim (indexed_book id e) [
  | inr err ↦ (none, some err, e)
  | inl pb ↦
      let r = cancel env pb.1 id trader in
      (r.result, r.error, record e { books = put_book pb.0 r.book e.books })
]

unfoldable pub engine_get_order : ℕ → Engine → Order ⊎ BookError
unfolding indexed_book
engine_get_order id e = elim (indexed_book id e) [
  | inr err ↦ inr err
  | inl pb ↦ elim (get_order pb.1 id) [ none ↦ inr unknown_order | some o ↦ inl o ]
]

pub record Stats : Type 0 where
  pub submitted : ℕ
  pub trades : ℕ
  pub rejected : ℕ
  pub listed_pairs : ℕ
  pub open_orders : ℕ
  pub orders_per_second : Float64
  pub last_update : ℕ

unfoldable pub open_total : List (String × Book) → ℕ
open_total [] = 0
open_total (kb ∷ kbs) = kb.1.open_orders + open_total kbs

-- `elapsed` is `time.Since(e.started).Seconds()`, and `time` the clock.
unfoldable pub stats : FloatOps → Float64 → ℕ → Engine → Stats
unfolding open_total
stats ops elapsed time e = record {
  submitted = e.submitted;
  trades = e.traded;
  rejected = e.rejected;
  listed_pairs = length e.books;
  open_orders = open_total e.books;
  orders_per_second = if float_lt 0 elapsed then ops.div (ops.of_int e.submitted) elapsed else 0;
  last_update = time;
}
