-- ===== src/OrderBook/Examples.antt =====
-- The theorems of the book at the runs of its tests.
use tiger_swap.Prelude.{◌+◌, ◌<◌, ◌≤◌, ◌≡◌, ◌≢◌, refl, ◌⊎◌, false, List, [], none, arith, All}
use tiger_swap.Prelude.Int.{pos}
use tiger_swap.Prelude.Word.{half_word}
use tiger_swap.OrderBook.Types.{
  buy, sell, limit, market, gtc, ioc, fok, cancelled, rejected, Order, Trade, leaves_units,
  opposite_side,
}
use tiger_swap.OrderBook.Side.{new_side_book, rest_order}
use tiger_swap.OrderBook.Book.{side_for}
use tiger_swap.OrderBook.Match.{match_loop}
use tiger_swap.OrderBook.Submit.{cancel, get_order, available_from, can_rest, submit}
use mathlib.Core.Path.{subst, sym}
use mathlib.Core.List.{reverse}
use Prim.Native.Nat.{min, ◌%◌}
use tiger_swap.Prelude.{length, take}
use tiger_swap.Prelude.Word.{word}
use tiger_swap.OrderBook.Tape.{recent_trades, clamp_limit}
use tiger_swap.OrderBook.Match.{start_match}
use tiger_swap.OrderBook.Invariant.{units, side_units, count_orders, IsSorted, has_price}
use tiger_swap.OrderBook.Runs.{Ordered}
use tiger_swap.OrderBook.Loops.{Blocked, MatchDone, match_loop-MatchDone}
use tiger_swap.OrderBook.Volume.{SideOk-Ordered, traded_units}
use tiger_swap.OrderBook.Fairness.{Fair, IsPrefix, maker_ids, queue}
use tiger_swap.OrderBook.Depth.{NoOwn, depth_units, available_from-depth}
use tiger_swap.OrderBook.Placement.{rest_sorted, rest_order-sorted}
use tiger_swap.OrderBook.Matching.{BookOk}
use tiger_swap.OrderBook.Submitting.{submit-BookOk}
use tiger_swap.OrderBook.Outcome.{submit-Fair, submit_priority, submit_gains}
use tiger_swap.OrderBook.Terms.{SameBook, submit_refused, submit_exhausts, submit_kills}
use tiger_swap.OrderBook.Fok.{submit_fok}
use tiger_swap.OrderBook.Cancelling.{cancel_answer, Dropped, cancel-BookOk, cancel_outcomes}
use tiger_swap.OrderBook.History.{recorded, recent_trades-latest}
use tiger_swap.OrderBook.Tests.{program, toy, empty_book, order, asks, sweep}

empty_book-BookOk : BookOk empty_book
unfolding new_side_book count_orders has_price
empty_book-BookOk = record {
  bids = record { kind_eq = refl; sorted = tt; indexed = λ q. refl; levels_ok = tt };
  asks = record { kind_eq = refl; sorted = tt; indexed = λ q. refl; levels_ok = tt };
  counts = refl;
  apart = tt;
}

abbrev first_ask : Order
first_ask = order 1 "ann" sell limit gtc 50 10

submit-BookOk_example : BookOk (submit toy empty_book first_ask).book
submit-BookOk_example = submit-BookOk toy empty_book first_ask empty_book-BookOk

asks-BookOk : BookOk asks
asks-BookOk =
    submit-BookOk toy _ _
      (submit-BookOk toy _ _ (submit-BookOk toy empty_book first_ask empty_book-BookOk))

submit-Fair_example : All (Fair (submit toy asks sweep).order) (submit toy asks sweep).trades
submit-Fair_example = submit-Fair toy asks sweep asks-BookOk

submit_priority_example :
    IsPrefix (maker_ids (submit toy asks sweep).trades) (queue "cid" (side_for asks sell).levels)
unfolding opposite_side
submit_priority_example = submit_priority toy asks sweep asks-BookOk

sweep_accepted : (submit toy asks sweep).error ≡ none
unfolding program
sweep_accepted = refl

submit_gains_example :
    (traded_units (submit toy asks sweep).trades ≡ (submit toy asks sweep).order.filled_units)
    × ((submit toy asks sweep).order.filled_units ≤ (submit toy asks sweep).order.qty_units)
submit_gains_example = submit_gains toy asks sweep asks-BookOk sweep_accepted

submit_exhausts_example :
    (leaves_units (submit toy asks sweep).order ≡ 0)
    ⊎ Blocked
        (submit toy asks sweep).order
        (side_for (submit toy asks sweep).book (opposite_side sweep.side)).levels
submit_exhausts_example = submit_exhausts toy asks sweep asks-BookOk sweep_accepted

-- A market order for more than the book has.
abbrev market_buy : Order
market_buy = order 5 "dan" buy market ioc 0 40

market_accepted : (submit toy asks market_buy).error ≡ none
unfolding program
market_accepted = refl

market_cannot_rest : can_rest (submit toy asks market_buy).order ≡ false
unfolding program
market_cannot_rest = refl

submit_kills_example :
    (side_for (submit toy asks market_buy).book buy ≡ side_for asks buy)
    × ((leaves_units (submit toy asks market_buy).order ≡ 0)
        ⊎ ((submit toy asks market_buy).order.status ≡ cancelled))
submit_kills_example =
    submit_kills toy asks market_buy asks-BookOk market_accepted market_cannot_rest

-- Cid's fill-or-kill order for more than there is.
abbrev too_large : Order
too_large = order 6 "cid" buy limit fok 51 23

too_large_refused : (submit toy asks too_large).error ≢ none
unfolding program
too_large_refused e = cc

submit_refused_example :
    ((submit toy asks too_large).trades ≡ [])
    × SameBook asks (submit toy asks too_large).book
    × ((submit toy asks too_large).order.status ≡ rejected)
submit_refused_example = submit_refused toy asks too_large too_large_refused

-- The same order for all that there is.
abbrev whole : Order
whole = order 6 "cid" buy limit fok 51 22

whole_accepted : (submit toy asks whole).error ≡ none
unfolding program
whole_accepted = refl

whole-NoOwn : NoOwn whole (side_for asks (opposite_side whole.side)).levels
unfolding program
whole-NoOwn = ((refl, (refl, tt)), ((refl, tt), tt))

asks_small : side_units (side_for asks (opposite_side whole.side)).levels < half_word
unfolding program side_units units
asks_small = omega arith

submit_fok_example :
    (submit toy asks whole).order.filled_units ≡ (submit toy asks whole).order.qty_units
submit_fok_example =
    submit_fok toy asks whole asks-BookOk refl whole-NoOwn asks_small whole_accepted

cancel-BookOk_example : BookOk (cancel toy asks 2 "bob").book
cancel-BookOk_example = cancel-BookOk toy asks 2 "bob" asks-BookOk

cancel_outcomes_example :
    (((cancel toy asks 2 "bob").result, (cancel toy asks 2 "bob").error)
      ≡ cancel_answer toy asks "bob" (get_order asks 2))
    × Dropped asks (cancel toy asks 2 "bob")
cancel_outcomes_example = cancel_outcomes toy asks 2 "bob" asks-BookOk

rest_order-sorted_example :
    (rest_order asks.asks 55 sweep).levels ≡ rest_sorted asks.asks.side 55 sweep asks.asks.levels
rest_order-sorted_example =
    rest_order-sorted asks.asks 55 sweep
      (subst (λ k. IsSorted k asks.asks.levels) (sym asks-BookOk.asks.kind_eq)
        asks-BookOk.asks.sorted)
      asks-BookOk.asks.indexed

available_from-depth_example :
    available_from whole asks.asks.levels (0 % word)
    ≡ (0 + depth_units whole asks.asks.levels) % word
available_from-depth_example =
    available_from-depth sell whole asks.asks.levels 0 asks-BookOk.asks.levels_ok

sweep-Ordered : Ordered sell (start_match asks sweep)
unfolding opposite_side side_for
sweep-Ordered = SideOk-Ordered sell {s = start_match asks sweep} asks-BookOk.asks

asks_fuel : length (start_match asks sweep).opposite.levels < 3
unfolding program
asks_fuel = omega arith

match_loop-MatchDone_example :
    MatchDone toy (start_match asks sweep) (match_loop 3 toy (start_match asks sweep))
match_loop-MatchDone_example =
    match_loop-MatchDone toy sell 3 (start_match asks sweep) sweep-Ordered asks_fuel

trades : List Trade
trades = (submit toy asks sweep).trades

recent_trades-latest_example :
    recent_trades (recorded 2 trades) (pos 1)
    ≡ reverse (take (clamp_limit (min 2 (length trades)) (pos 1)) trades)
recent_trades-latest_example = recent_trades-latest 2 trades (pos 1) (omega arith)
