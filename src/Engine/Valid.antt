-- ===== src/Engine/Valid.antt =====
-- Every operation of the engine keeps each of its books valid and its pairs distinct.
use tiger_swap.Prelude.{
  ℕ, ◌+◌, ◌%◌, ◌≡◌, refl, ◌⊎◌, inl, inr, true, List, [], ◌∷◌, arith, Bool-cases, Option-cases,
  String, ap, sym, subst,
}
use text.Mathlib.Text.{◌==◌ as str_eq}
use tiger_swap.Prelude.Word.{Float64, word}
use tiger_swap.OrderBook.Types.{
  Side, buy, sell, BookError, Order, PairConfig, Env, unknown_order, unknown_pair, with_defaults,
}
use tiger_swap.OrderBook.Side.{new_side_book}
use tiger_swap.OrderBook.Book.{Book, new_book}
use tiger_swap.OrderBook.Submit.{Submitted, submit}
use tiger_swap.OrderBook.Invariant.{SideOk, count_orders, has_price}
use tiger_swap.OrderBook.Matching.{BookOk}
use tiger_swap.OrderBook.Submitting.{submit-BookOk}
use tiger_swap.OrderBook.Cancelling.{cancel-BookOk}
use tiger_swap.Engine.{
  Engine, find_pair, find_book, put_book, new_engine, register_pair, unregister_pair, finish_submit,
  submit_order, indexed_book, cancel_order, stats, open_total,
}
use tiger_swap.Engine.Listing.{
  AllValid, Distinct, find_book-valid, put_book-valid, put_book-Distinct, delete_book-valid,
  delete_book-Distinct,
}

pub record EngineOk (e : Engine) : Type 0 where
  pub valid : AllValid e.books
  pub distinct : Distinct e.books

new_side_book-SideOk : (kind : Side) → SideOk kind (new_side_book kind)
unfolding new_side_book has_price
new_side_book-SideOk kind = record {
  kind_eq = refl;
  sorted = tt;
  indexed = λ q. refl;
  levels_ok = tt;
}

pub new_book-BookOk : (cfg : PairConfig) → BookOk (new_book cfg)
unfolding new_book new_side_book count_orders
new_book-BookOk cfg = record {
  bids = new_side_book-SideOk buy;
  asks = new_side_book-SideOk sell;
  counts = refl;
  apart = tt;
}

-- The operations that change an engine.
pub data Operation : Type 0 where
  register : PairConfig → Operation
  unregister : String → Operation
  install : Operation
  submitting : Order → Operation
  withdraw : ℕ → String → Operation

unfoldable pub perform : Env → Operation → Engine → Engine
perform env (register cfg) e = (register_pair cfg e).0
perform env (unregister p) e = (unregister_pair p e).0
perform env install e = record e { on_trade = true }
perform env (submitting o) e = (submit_order env o e).engine
perform env (withdraw id trader) e = (cancel_order env id trader e).2

unfoldable pub perform_all : Env → List Operation → Engine → Engine
unfolding perform
perform_all env [] e = e
perform_all env (op ∷ ops) e = perform_all env ops (perform env op e)

put-EngineOk :
    (p : String) (b : Book) (e f : Engine)
    → EngineOk e
    → BookOk b
    → f.books ≡ put_book p b e.books
    → EngineOk f
put-EngineOk p b e f ok okb eq = record {
  valid = subst AllValid (sym eq) (put_book-valid p b e.books okb ok.valid);
  distinct = subst Distinct (sym eq) (put_book-Distinct p b e.books ok.distinct);
}

reconfigured-BookOk :
    (cfg : PairConfig) (b : Book) → BookOk b → BookOk (record b { cfg = with_defaults cfg })
reconfigured-BookOk cfg b ok = record {
  bids = ok.bids;
  asks = ok.asks;
  counts = ok.counts;
  apart = ok.apart;
}

register-EngineOk : (cfg : PairConfig) (e : Engine) → EngineOk e → EngineOk (register_pair cfg e).0
unfolding register_pair
register-EngineOk cfg e ok = elim (Bool-cases (str_eq cfg.pair "")) [
  | inl bad ↦ rw (bad, register_pair) ok
  | inr good ↦ elim (Option-cases (find_book cfg.pair e.books)) [
    | inl new ↦
        rw (good, new, register_pair)
          (put-EngineOk cfg.pair (new_book cfg) e _ ok (new_book-BookOk cfg) refl)
    | inr (b, old) ↦
        rw (good, old, register_pair)
          (put-EngineOk cfg.pair _ e _ ok
            (reconfigured-BookOk cfg b (find_book-valid cfg.pair e.books b ok.valid old)) refl)
  ]
]

unregister-EngineOk : (p : String) (e : Engine) → EngineOk e → EngineOk (unregister_pair p e).0
unfolding unregister_pair
unregister-EngineOk p e ok = elim (Option-cases (find_book p e.books)) [
  | inl missing ↦ rw (missing, unregister_pair) ok
  | inr (b, there) ↦
      rw (there, unregister_pair)
        (record {
          valid = delete_book-valid p e.books ok.valid;
          distinct = delete_book-Distinct p e.books ok.distinct;
        })
]

pub finish-books : (e : Engine) (r : Submitted) → (finish_submit e r).engine.books ≡ e.books
unfolding finish_submit
finish-books e r = ground arith

submit-EngineOk :
    (env : Env) (o : Order) (e : Engine) → EngineOk e → EngineOk (submit_order env o e).engine
unfolding submit_order
submit-EngineOk env o e ok = elim (Option-cases (find_book o.pair e.books)) [
  | inl missing ↦ rw (missing, submit_order) (record { valid = ok.valid; distinct = ok.distinct })
  | inr (b, there) ↦
      let id = (e.next_order_id + 1) % word in
      let r = submit env b (record o { order_id = id }) in
      let e' = record e { next_order_id = id; books = put_book o.pair r.book e.books } in
      rw (there, submit_order)
        (put-EngineOk o.pair r.book e (finish_submit e' r).engine ok
          (submit-BookOk env b (record o { order_id = id })
            (find_book-valid o.pair e.books b ok.valid there))
          (finish-books e' r))
]

indexed_book-valid :
    (id : ℕ) (e : Engine)
    → EngineOk e
    → (pb : String × Book) → indexed_book id e ≡ inl pb
    → BookOk pb.1
unfolding indexed_book
indexed_book-valid id e ok pb q = elim (Option-cases (find_pair id e.order_pair)) [
  | inl none_here ↦
      absurd (let bad : inr unknown_order ≡ inl pb = rw (none_here, indexed_book) at q in cc)
  | inr (p, named) ↦ elim (Option-cases (find_book p e.books)) [
    | inl none_here ↦
        absurd
          (let bad : inr unknown_pair ≡ inl pb = rw (named, none_here, indexed_book) at q in cc)
    | inr (b, there) ↦
        let same : inl (p, b) ≡ inl pb = rw (named, there, indexed_book) at q in
        let ok_b = find_book-valid p e.books b ok.valid there in
        subst (λ (x : String × Book). BookOk x.1)
          (ap (λ (x : (String × Book) ⊎ BookError). elim x [ inl y ↦ y | inr err ↦ (p, b) ]) same)
          ok_b
  ]
]

cancel-EngineOk :
    (env : Env) (id : ℕ) (trader : String) (e : Engine)
    → EngineOk e
    → EngineOk (cancel_order env id trader e).2
unfolding cancel_order
cancel-EngineOk env id trader e ok = go (indexed_book id e) refl
  where
    go :
        (x : (String × Book) ⊎ BookError)
        → indexed_book id e ≡ x
        → EngineOk (cancel_order env id trader e).2
    go (inr err) q = rw (q, cancel_order) ok
    go (inl pb) q =
        rw (q, cancel_order)
          (put-EngineOk pb.0 _ e _ ok
            (cancel-BookOk env pb.1 id trader (indexed_book-valid id e ok pb q)) refl)

perform-EngineOk :
    (env : Env) (op : Operation) (e : Engine) → EngineOk e → EngineOk (perform env op e)
unfolding perform
perform-EngineOk env (register cfg) e ok = register-EngineOk cfg e ok
perform-EngineOk env (unregister p) e ok = unregister-EngineOk p e ok
perform-EngineOk env install e ok = record { valid = ok.valid; distinct = ok.distinct }
perform-EngineOk env (submitting o) e ok = submit-EngineOk env o e ok
perform-EngineOk env (withdraw id trader) e ok = cancel-EngineOk env id trader e ok

perform_all-EngineOk :
    (env : Env) (ops : List Operation) (e : Engine) → EngineOk e → EngineOk (perform_all env ops e)
unfolding perform_all
perform_all-EngineOk env [] e ok = ok
perform_all-EngineOk env (op ∷ ops) e ok =
    perform_all-EngineOk env ops _ (perform-EngineOk env op e ok)

-- After any sequence of listings, delistings, submissions and cancellations on a new engine, every book
-- is valid and no pair is listed twice.
pub run_valid :
    (env : Env) (ops : List Operation) (unix_milli : ℕ)
    → EngineOk (perform_all env ops (new_engine unix_milli))
unfolding new_engine
run_valid env ops unix_milli = perform_all-EngineOk env ops _ (record { valid = tt; distinct = tt })

-- The orders that rest in the books, counted one by one.
unfoldable pub resting_total : List (String × Book) → ℕ
resting_total [] = 0
resting_total (kb ∷ kbs) =
    count_orders kb.1.bids.levels + count_orders kb.1.asks.levels + resting_total kbs

open_total-valid : (kbs : List (String × Book)) → AllValid kbs → open_total kbs ≡ resting_total kbs
unfolding open_total resting_total
open_total-valid [] a = refl
open_total-valid (kb ∷ kbs) a = omega (arith, open_total-valid kbs a.1, a.0.counts)

-- After any sequence of operations on a new engine, the open orders that Stats reports are the orders
-- that rest in the listed books.
pub stats_open_orders :
    (env : Env) (ops : List Operation) (unix_milli : ℕ) (elapsed : Float64) (time : ℕ)
    → (stats env.ops elapsed time (perform_all env ops (new_engine unix_milli))).open_orders
      ≡ resting_total (perform_all env ops (new_engine unix_milli)).books
unfolding stats
stats_open_orders env ops unix_milli elapsed time =
    open_total-valid _ (run_valid env ops unix_milli).valid
