-- ===== src/Engine/Accounting.antt =====
-- Engine.Submit: the counters, the index, the trade ids and the callback on every outcome, and the books
-- of the other pairs.
use tiger_swap.Prelude.{
  ℕ, suc, zero, ◌+◌, ◌%◌, ◌<◌, ◌≡◌, ◌≢◌, refl, ◌⊎◌, inl, inr, false, List, [], ◌∷◌, ◌++◌, map, none,
  some, arith, Option-cases, String, if◌then◌else◌, ap, ◌∙◌, length, get_elem?,
}
use text.Mathlib.Text.{◌==◌ as str_eq}
use tiger_swap.Prelude.Word.{word}
use tiger_swap.OrderBook.Types.{BookError, Order, Trade, Env}
use tiger_swap.OrderBook.Submit.{Submitted, submit}
use tiger_swap.Engine.{
  Engine, find_book, find_pair, put_book, EngineSubmitted, finish_submit, number_trades,
  submit_order,
}
use tiger_swap.Engine.Listing.{find_book-put_other}
use tiger_swap.Engine.Valid.{finish-books}

-- Nothing but the order counter, the book and the count of rejections may have changed.
pub record Refused (e : Engine) (r : EngineSubmitted) : Type 0 where
  pub error : r.error ≢ none
  pub no_trades : r.trades ≡ []
  pub order_pair : r.engine.order_pair ≡ e.order_pair
  pub next_trade_id : r.engine.next_trade_id ≡ e.next_trade_id
  pub delivered : r.engine.delivered ≡ e.delivered
  pub submitted : r.engine.submitted ≡ e.submitted
  pub traded : r.engine.traded ≡ e.traded
  pub rejected : r.engine.rejected ≡ (e.rejected + 1) % word

-- The order is indexed, and each trade is counted, numbered in order and delivered to the callback.
pub record Accepted (e : Engine) (r : EngineSubmitted) : Type 0 where
  pub error : r.error ≡ none
  pub indexed : find_pair r.order.order_id r.engine.order_pair ≡ some r.order.pair
  pub numbered :
      (i : ℕ)
      → i < length r.trades
      → get_elem? (map (λ (t : Trade). t.trade_id) r.trades) i
        ≡ some ((e.next_trade_id % word + suc i) % word)
  pub next_trade_id : r.engine.next_trade_id ≡ (e.next_trade_id + length r.trades) % word
  pub delivered : r.engine.delivered ≡ (if e.on_trade then e.delivered ++ r.trades else e.delivered)
  pub submitted : r.engine.submitted ≡ (e.submitted + 1) % word
  pub traded : r.engine.traded ≡ (e.traded + length r.trades) % word
  pub rejected : r.engine.rejected ≡ e.rejected

length-number_trades : (n : ℕ) (ts : List Trade) → length (number_trades n ts) ≡ length ts
unfolding number_trades
length-number_trades n [] = refl
length-number_trades n (t ∷ ts) = ap suc (length-number_trades ((n + 1) % word) ts)

number_trades-id :
    (n : ℕ) (ts : List Trade) (i : ℕ)
    → i < length (number_trades n ts)
    → get_elem? (map (λ (t : Trade). t.trade_id) (number_trades n ts)) i
      ≡ some ((n % word + suc i) % word)
unfolding number_trades
number_trades-id n [] i h = absurd (omega arith)
number_trades-id n (t ∷ ts) zero h = ap some (omega arith)
number_trades-id n (t ∷ ts) (suc i) h =
    number_trades-id ((n + 1) % word) ts i (omega arith) ∙ ap some (omega arith)

module _ (e f : Engine) (b : Submitted) (pairs : f.order_pair ≡ e.order_pair)
    (ids : f.next_trade_id ≡ e.next_trade_id) (calls : f.delivered ≡ e.delivered)
    (hook : f.on_trade ≡ e.on_trade) (subs : f.submitted ≡ e.submitted)
    (trades : f.traded ≡ e.traded) (rejs : f.rejected ≡ e.rejected) where
  finish-Refused : (x : BookError) → b.error ≡ some x → Refused e (finish_submit f b)
  unfolding finish_submit
  finish-Refused x q =
      rw (q, finish_submit)
        (record {
          error = λ e. cc;
          no_trades = refl;
          order_pair = pairs;
          next_trade_id = ids;
          delivered = calls;
          submitted = subs;
          traded = trades;
          rejected = rw rejs refl;
        })

  finish-Accepted : b.error ≡ none → Accepted e (finish_submit f b)
  unfolding finish_submit find_pair
  finish-Accepted q =
      rw (q, finish_submit)
        (record {
          error = refl;
          indexed = ground arith;
          numbered = λ i h.
              number_trades-id f.next_trade_id b.trades i h
              ∙ ap (λ n. some ((n % word + suc i) % word)) ids;
          next_trade_id = omega (arith, ids, length-number_trades f.next_trade_id b.trades);
          delivered = rw (hook, calls) refl;
          submitted = rw subs refl;
          traded = omega (arith, trades, length-number_trades f.next_trade_id b.trades);
          rejected = rejs;
        })

-- Engine.Submit either refuses the order, and then counts a rejection, trades nothing and indexes
-- nothing, or accepts it, and then indexes it under its pair, numbers the trades consecutively from the
-- trade counter, counts them, and delivers them in order to the callback that is installed.
pub submit_outcomes :
    (env : Env) (o : Order) (e : Engine)
    → Refused e (submit_order env o e) ⊎ Accepted e (submit_order env o e)
unfolding submit_order
submit_outcomes env o e = elim (Option-cases (find_book o.pair e.books)) [
  | inl missing ↦ inl (
      rw (missing, submit_order)
        (record {
          error = λ e. cc;
          no_trades = refl;
          order_pair = refl;
          next_trade_id = refl;
          delivered = refl;
          submitted = refl;
          traded = refl;
          rejected = refl;
        }))
  | inr (b, there) ↦
      rw (there, submit_order)
        (answered (submit env b (record o { order_id = (e.next_order_id + 1) % word })))
]
  where
    answered :
        (r : Submitted)
        → Refused e (
            finish_submit
              (record e {
                next_order_id = (e.next_order_id + 1) % word;
                books = put_book o.pair r.book e.books;
              })
              r)
          ⊎ Accepted e (
              finish_submit
                (record e {
                  next_order_id = (e.next_order_id + 1) % word;
                  books = put_book o.pair r.book e.books;
                })
                r)
    answered r = elim (Option-cases r.error) [
      | inl fine ↦ inr (finish-Accepted e _ r refl refl refl refl refl refl refl fine)
      | inr (x, bad) ↦ inl (finish-Refused e _ r refl refl refl refl refl refl refl x bad)
    ]

-- An order for one pair leaves the books of every other pair as they were.
pub submit_isolated :
    (env : Env) (o : Order) (e : Engine) (q : String)
    → str_eq o.pair q ≡ false
    → find_book q (submit_order env o e).engine.books ≡ find_book q e.books
unfolding submit_order
submit_isolated env o e q ne = elim (Option-cases (find_book o.pair e.books)) [
  | inl missing ↦ rw (missing, submit_order) refl
  | inr (b, there) ↦
      rw (there, submit_order)
        (answered (submit env b (record o { order_id = (e.next_order_id + 1) % word })))
]
  where
    answered :
        (r : Submitted)
        → find_book q
            (finish_submit
              (record e {
                next_order_id = (e.next_order_id + 1) % word;
                books = put_book o.pair r.book e.books;
              })
              r).engine.books
          ≡ find_book q e.books
    answered r =
        ap (find_book q) (finish-books _ r) ∙ find_book-put_other o.pair q r.book e.books ne
