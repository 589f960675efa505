-- ===== src/Engine/Tests.antt =====
-- An engine with one pair, runs of it, and the theorems at them.
use tiger_swap.Prelude.{◌⊎◌, List, [], ◌∷◌}
use tiger_swap.OrderBook.Types.{sell, buy, limit, gtc, Order}
use tiger_swap.OrderBook.Tests.{toy, pair, order}
use tiger_swap.Engine.{Engine, new_engine, register_pair, submit_order}
use tiger_swap.Engine.Valid.{
  EngineOk, Operation, register, submitting, install, withdraw, unregister, perform_all, run_valid,
}
use tiger_swap.Engine.Accounting.{Refused, Accepted, submit_outcomes}

-- An order for a pair that is not listed, then listing, an order, a cancellation of another's order.
abbrev session : List Operation
session =
    submitting (order 0 "ann" sell limit gtc 50 10)
    ∷ register pair
    ∷ install
    ∷ submitting (order 0 "ann" sell limit gtc 50 10)
    ∷ withdraw 1 "bob"
    ∷ unregister "TGR-EUR"
    ∷ []

run_valid_example : EngineOk (perform_all toy session (new_engine 0))
run_valid_example = run_valid toy session 0

abbrev listed : Engine
listed = (register_pair pair (new_engine 0)).0

abbrev bid : Order
bid = order 0 "bob" buy limit gtc 50 4

submit_outcomes_example :
    Refused listed (submit_order toy bid listed) ⊎ Accepted listed (submit_order toy bid listed)
submit_outcomes_example = submit_outcomes toy bid listed
