-- ===== src/OrderBook/Tests.antt =====
-- A book for one pair with toy arithmetic, and runs of it.
use tiger_swap.Prelude.{ℕ, ◌+◌, ◌*◌, ◌/◌, ◌≡◌, refl, [], ◌∷◌, none, map, String}
use tiger_swap.Prelude.Int.{pos}
use tiger_swap.Prelude.Word.{add64, sub64, slt64, is_nan, is_inf, float_lt, float_le, to_int64}
use tiger_swap.OrderBook.Types.{
  Side, buy, sell, OrderType, limit, Tif, gtc, fok, no_status, Order, Trade, PairConfig, Env,
  leaves_units, min_int64, opposite_side,
}
use tiger_swap.OrderBook.Side.{
  new_side_book, add_order, take_order, remove_order, better, set_level, erase_level, find_level,
  better_at, search_level, insert_at, insert_level, rest_order, drop_level,
}
use tiger_swap.OrderBook.Tape.{new_tape, push_trade}
use tiger_swap.OrderBook.Book.{
  Book, sync_public, to_ticks, positive_ticks, valid_side, valid_type, valid_tif, tif_or_gtc,
  tif_for, not_positive, out_of_range, validate_price, validate_quantity, validate, side_for,
  with_side, crosses,
}
use tiger_swap.OrderBook.Match.{
  new_trade, cancel_resting, settle_maker, execute, fill_step, fill_level, settle_level,
  match_level, match_loop, written_back, end_match, run_match, match_order,
}
use tiger_swap.OrderBook.Submit.{
  available_units, is_fok, can_rest, place, reject, submit_valid, submit,
}

-- Everything that a run unfolds.
unfoldable pub program : Unit {0}
unfolding is_nan is_inf float_lt float_le to_int64 add64 sub64 slt64 leaves_units min_int64
    opposite_side new_side_book add_order take_order remove_order better set_level erase_level
    find_level better_at search_level insert_at insert_level rest_order drop_level new_tape
    push_trade sync_public to_ticks positive_ticks valid_side valid_type valid_tif tif_or_gtc
    tif_for not_positive out_of_range validate_price validate_quantity validate side_for with_side
    crosses new_trade cancel_resting settle_maker execute fill_step fill_level settle_level
    match_level match_loop written_back end_match run_match match_order available_units is_fok
    can_rest place reject submit_valid submit
program = tt

-- Small bit patterns stand for themselves.
abbrev pub toy : Env
toy = record {
  ops = record { of_int = λ n. n; mul = λ a b. a * b; div = λ a b. a / b; round = λ x. pos x };
  clock = λ n. 100 + n;
}

abbrev pub pair : PairConfig
pair = record {
  pair = "TGR-USD";
  price_scale = pos 1;
  qty_scale = pos 1;
  maker_fee_bps = pos 10;
  taker_fee_bps = pos 20;
  min_quantity = 0;
  max_quantity = 0;
}

abbrev pub empty_book : Book
empty_book = record {
  cfg = pair;
  bids = new_side_book buy;
  asks = new_side_book sell;
  last_price_tk = 0;
  open_orders = 0;
  tape = new_tape 4;
  clock_reads = 0;
}

abbrev pub order : ℕ → String → Side → OrderType → Tif → ℕ → ℕ → Order
order id trader side type tif price qty = record {
  order_id = id;
  trader = trader;
  pair = "TGR-USD";
  side = side;
  order_type = type;
  tif = tif;
  price = price;
  quantity = qty;
  filled = 0;
  leaves = 0;
  status = no_status;
  created_at = 0;
  updated_at = 0;
  price_ticks = 0;
  qty_units = 0;
  filled_units = 0;
}

-- Three asks of two traders: 10 units at 50 by ann, then 5 at 50 by bob, and 7 at 51 by ann.
abbrev pub asks : Book
asks =
    let b1 = (submit toy empty_book (order 1 "ann" sell limit gtc 50 10)).book in
    let b2 = (submit toy b1 (order 2 "bob" sell limit gtc 50 5)).book in
    (submit toy b2 (order 3 "ann" sell limit gtc 51 7)).book

abbrev pub sweep : Order
sweep = order 4 "cid" buy limit gtc 51 18

sweep_makers : map (λ (t : Trade). t.maker_id) (submit toy asks sweep).trades ≡ 1 ∷ 2 ∷ 3 ∷ []
unfolding program
sweep_makers = refl

sweep_quantities : map (λ (t : Trade). t.qty_units) (submit toy asks sweep).trades ≡ 10 ∷ 5 ∷ 3 ∷ []
unfolding program
sweep_quantities = refl

-- Ann's fill-or-kill order is let through by the depth, and then fills with bob's five units only.
abbrev pub fok_of_ann : Order
fok_of_ann = order 4 "ann" buy limit fok 51 12

-- Ann's order for twelve fills with bob's five only, and no error tells so.
fok_of_ann_filled : (submit toy asks fok_of_ann).order.filled_units ≡ 5
unfolding program
fok_of_ann_filled = refl

fok_of_ann_accepted : (submit toy asks fok_of_ann).error ≡ none
unfolding program
fok_of_ann_accepted = refl
