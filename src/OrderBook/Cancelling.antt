-- ===== src/OrderBook/Cancelling.antt =====
-- Cancel: the book stays valid, and each outcome is exact.
use tiger_swap.Prelude.{
  ℕ, suc, ◌-◌, ◌<◌, ◌≡◌, ◌≢◌, refl, ◌⊎◌, inl, inr, true, false, Option, none, some, arith, All-map,
  sym, if◌then◌else◌, Bool-cases, Option-cases, String,
}
use text.Mathlib.Text.{◌==◌ as str_eq}
use tiger_swap.OrderBook.Types.{
  Side, buy, sell, Order, Env, BookError, cancelled, not_owner, unknown_order,
}
use tiger_swap.OrderBook.Side.{Level}
use tiger_swap.OrderBook.Book.{Book, sync_public, side_for, with_side}
use tiger_swap.OrderBook.Match.{now, tick}
use tiger_swap.OrderBook.Submit.{
  find_resting, remove_resting, Cancelled, cancel_found, cancel, get_order,
}
use tiger_swap.OrderBook.Matching.{Prices, BookOk}
use tiger_swap.OrderBook.Taking.{find_resting-Holds, found_again}
use tiger_swap.OrderBook.Removed.{Removed, remove_resting-Removed}

-- Every outcome of Cancel.
cancel-cases {ℓ} :
    (P : Cancelled → Type ℓ) (env : Env) (b : Book) (id : ℕ) (trader : String)
    → (get_order b id ≡ none → P (record { result = none; error = some unknown_order; book = b }))
    → ((l : Level) (o : Order)
        → get_order b id ≡ some o
        → find_resting id b.bids.levels ≡ some (l, o)
        → P (cancel_found env b buy trader l o))
    → ((l : Level) (o : Order)
        → get_order b id ≡ some o
        → find_resting id b.asks.levels ≡ some (l, o)
        → P (cancel_found env b sell trader l o))
    → P (cancel env b id trader)
unfolding cancel get_order
cancel-cases P env b id trader missing bid ask =
    elim (Option-cases (find_resting id b.bids.levels)) [
      | inr (x, e) ↦ rw (e, cancel) (bid x.0 x.1 (rw (e, get_order) refl) e)
      | inl e ↦ elim (Option-cases (find_resting id b.asks.levels)) [
        | inr (x, f) ↦ rw (e, f, cancel) (ask x.0 x.1 (rw (e, f, get_order) refl) f)
        | inl f ↦ rw (e, f, cancel) (missing (rw (e, f, get_order) refl))
      ]
    ]

-- What Cancel does for the order's trader.
abbrev stopped : Env → Book → Order → Order
stopped env b o =
    sync_public env.ops b.cfg (record o { status = cancelled; updated_at = now env b })

abbrev without : Book → Side → Level → Order → Book
without b sd l o = tick (record (with_side b sd (remove_resting (side_for b sd) l o.order_id)) {
  open_orders = b.open_orders - 1;
})

cancel_found-own :
    (env : Env) (b : Book) (sd : Side) (trader : String) (l : Level) (o : Order)
    → str_eq o.trader trader ≡ true
    → cancel_found env b sd trader l o
      ≡ record { result = some (stopped env b o); error = none; book = without b sd l o }
unfolding cancel_found
cancel_found-own env b sd trader l o e = rw e refl

cancel_found-other :
    (env : Env) (b : Book) (sd : Side) (trader : String) (l : Level) (o : Order)
    → str_eq o.trader trader ≡ false
    → cancel_found env b sd trader l o ≡ record { result = none; error = some not_owner; book = b }
unfolding cancel_found
cancel_found-other env b sd trader l o e = rw e refl

module _ (b : Book) (ok : BookOk b) (id : ℕ) (l : Level) (o : Order) where
  bid_Removed :
      find_resting id b.bids.levels ≡ some (l, o)
      → Removed buy b.bids (remove_resting b.bids l o.order_id)
  bid_Removed e =
      let (h, f) = find_resting-Holds id b.bids.levels l o e in
      remove_resting-Removed buy b.bids l o ok.bids h o.order_id (found_again id l.orders o f)

  ask_Removed :
      find_resting id b.asks.levels ≡ some (l, o)
      → Removed sell b.asks (remove_resting b.asks l o.order_id)
  ask_Removed e =
      let (h, f) = find_resting-Holds id b.asks.levels l o e in
      remove_resting-Removed sell b.asks l o ok.asks h o.order_id (found_again id l.orders o f)

  without_bid-BookOk : find_resting id b.bids.levels ≡ some (l, o) → BookOk (without b buy l o)
  unfolding side_for with_side
  without_bid-BookOk e =
      let r = bid_Removed e in
      record {
        bids = r.side_ok;
        asks = ok.asks;
        counts = omega (arith, ok.counts, r.count_eq);
        apart = All-map b.asks.levels ok.apart (λ a below. r.prices (λ q. q < a.price_ticks) below);
      }

  without_ask-BookOk : find_resting id b.asks.levels ≡ some (l, o) → BookOk (without b sell l o)
  unfolding side_for with_side
  without_ask-BookOk e =
      let r = ask_Removed e in
      record {
        bids = ok.bids;
        asks = r.side_ok;
        counts = omega (arith, ok.counts, r.count_eq);
        apart = r.prices (λ a. Prices (λ q. q < a) b.bids.levels) ok.apart;
      }

-- Cancel keeps the book valid on every branch.
pub cancel-BookOk :
    (env : Env) (b : Book) (id : ℕ) (trader : String)
    → BookOk b
    → BookOk (cancel env b id trader).book
cancel-BookOk env b id trader ok =
    cancel-cases (λ r. BookOk r.book) env b id trader (λ e. ok)
      (λ l o g e. elim (Bool-cases (str_eq o.trader trader)) [
        | inl own ↦
            rw (cancel_found-own env b buy trader l o own) (without_bid-BookOk b ok id l o e)
        | inr other ↦ rw (cancel_found-other env b buy trader l o other) ok
      ])
      (λ l o g e. elim (Bool-cases (str_eq o.trader trader)) [
        | inl own ↦
            rw (cancel_found-own env b sell trader l o own) (without_ask-BookOk b ok id l o e)
        | inr other ↦ rw (cancel_found-other env b sell trader l o other) ok
      ])

-- What Cancel answers for the order that the book has under the id.
unfoldable pub cancel_answer : Env → Book → String → Option Order → Option Order × Option BookError
cancel_answer env b trader none = (none, some unknown_order)
cancel_answer env b trader (some o) =
    if str_eq o.trader trader
    then (
      some (sync_public env.ops b.cfg (record o { status = cancelled; updated_at = now env b })),
      none,
    )
    else (none, some not_owner)

-- The book is unchanged after an error, and without one an order fewer is open.
abbrev pub Dropped : Book → Cancelled → Type 0
Dropped b r =
    ((r.error ≢ none) × (r.book ≡ b))
    ⊎ ((r.error ≡ none) × (suc r.book.open_orders ≡ b.open_orders))

abbrev Answered : Env → Book → ℕ → String → Cancelled → Type 0
Answered env b id trader r =
    ((r.result, r.error) ≡ cancel_answer env b trader (get_order b id)) × Dropped b r

module _ (env : Env) (b : Book) (id : ℕ) (trader : String) (sd : Side) (l : Level) (o : Order) where
  answer-own :
      str_eq o.trader trader ≡ true
      → cancel_answer env b trader (some o) ≡ (some (stopped env b o), none)
  unfolding cancel_answer
  answer-own own = rw (own, cancel_answer) refl

  answer-other :
      str_eq o.trader trader ≡ false → cancel_answer env b trader (some o) ≡ (none, some not_owner)
  unfolding cancel_answer
  answer-other other = rw (other, cancel_answer) refl

  found-Answered :
      get_order b id ≡ some o
      → suc (b.open_orders - 1) ≡ b.open_orders
      → Answered env b id trader (cancel_found env b sd trader l o)
  unfolding with_side
  found-Answered g n = elim (Bool-cases (str_eq o.trader trader)) [
    | inl own ↦
        rw (cancel_found-own env b sd trader l o own, g) (sym (answer-own own), inr (refl, n))
    | inr other ↦
        rw (cancel_found-other env b sd trader l o other, g)
          (sym (answer-other other), inl ((λ e. cc), refl))
  ]

-- On a valid book Cancel answers as the resting order with the id says: unknown where there is none, not
-- the owner's where the trader differs, and else the order, cancelled. After an error the book is
-- unchanged, and without one an order fewer is open.
pub cancel_outcomes :
    (env : Env) (b : Book) (id : ℕ) (trader : String)
    → BookOk b
    → (((cancel env b id trader).result, (cancel env b id trader).error)
        ≡ cancel_answer env b trader (get_order b id))
      × Dropped b (cancel env b id trader)
unfolding cancel_answer
cancel_outcomes env b id trader ok =
    cancel-cases (Answered env b id trader) env b id trader
      (λ g. (rw (g, cancel_answer) refl, inl ((λ e. cc), refl)))
      (λ l o g e.
        found-Answered env b id trader buy l o g
          (omega (arith, ok.counts, (bid_Removed b ok id l o e).count_eq)))
      (λ l o g e.
        found-Answered env b id trader sell l o g
          (omega (arith, ok.counts, (ask_Removed b ok id l o e).count_eq)))
