-- ===== src/OrderBook/Validation.antt =====
-- What `validate` lets through, and what it refuses.
use tiger_swap.Prelude.{
  ℕ, ◌<◌, ◌≡◌, ◌≢◌, refl, inl, inr, true, Option, none, some, arith, Bool-cases, ap, sym, ◌∙◌,
}
use tiger_swap.Prelude.Int.{pos_part}
use tiger_swap.Prelude.Word.{FloatOps, half_word, to_int64}
use tiger_swap.OrderBook.Types.{
  OrderType, limit, market, bad_type, Tif, gtc, ioc, fok, default_tif, bad_tif, Order, PairConfig,
}
use tiger_swap.OrderBook.Book.{
  validate, validate_quantity, validate_price, set_units, set_ticks, to_ticks, positive_ticks,
  valid_side, valid_type, valid_tif, tif_or_gtc, tif_for, not_positive, out_of_range,
}

pub record Ready (o o' : Order) : Type 0 where
  pub side : o'.side ≡ o.side
  pub side_valid : valid_side o'.side ≡ true
  pub order_type : o'.order_type ≡ o.order_type
  pub trader : o'.trader ≡ o.trader
  pub order_id : o'.order_id ≡ o.order_id
  pub status : o'.status ≡ o.status
  pub fresh : o'.filled_units ≡ 0
  pub positive : 0 < o'.qty_units
  pub small : o'.qty_units < half_word
  pub priced : o'.order_type ≡ limit → 0 < o'.price_ticks
  pub tif : o'.tif ≡ tif_for o.order_type (tif_or_gtc o.tif)
  pub tif_valid : valid_tif o'.tif ≡ true
  pub market_kills : o'.order_type ≡ market → o'.tif ≢ gtc

positive_ticks-bounds :
    (ops : FloatOps) (value scale n : ℕ)
    → positive_ticks (to_ticks ops value scale) ≡ some n
    → (0 < n) × (n < half_word)
unfolding positive_ticks to_ticks to_int64
positive_ticks-bounds ops value scale n h = ground arith

-- What `validate_price` sets: only the ticks, positive for a limit order.
record Priced (o o' : Order) : Type 0 where
  rest : o' ≡ record o { price_ticks = o'.price_ticks }
  priced : o.order_type ≡ limit → 0 < o'.price_ticks

module _ (ops : FloatOps) (cfg : PairConfig) where
  set_ticks-Priced :
      (o o' : Order) (t : Option ℕ)
      → ((n : ℕ) → t ≡ some n → 0 < n)
      → set_ticks o t ≡ (o', none)
      → Priced o o'
  unfolding set_ticks
  set_ticks-Priced o o' none p h = absurd (cc)
  set_ticks-Priced o o' (some n) p h =
      let pos_n = p n refl in record { rest = ground arith; priced = ground arith }

  validate_price-Priced :
      (o o' : Order) (ty : OrderType)
      → o.order_type ≡ ty
      → validate_price ops cfg o ty ≡ (o', none)
      → Priced o o'
  unfolding validate_price
  validate_price-Priced o o' limit e h = elim (Bool-cases (not_positive o.price)) [
    | inl bad ↦ absurd (cc (rw bad at h))
    | inr good ↦
        set_ticks-Priced o o' (positive_ticks (to_ticks ops o.price (pos_part cfg.price_scale)))
          (λ n q. (positive_ticks-bounds ops o.price _ n q).0) (rw good at h)
  ]
  validate_price-Priced o o' market e h = record { rest = ground arith; priced = ground arith }
  validate_price-Priced o o' bad_type e h = record { rest = ground arith; priced = ground arith }

  record Sized (o o' : Order) : Type 0 where
    units : ℕ
    positive : 0 < units
    small : units < half_word
    priced : Priced (record o { qty_units = units; filled_units = 0 }) o'

  set_units-Sized :
      (o o' : Order) (t : Option ℕ)
      → ((n : ℕ) → t ≡ some n → (0 < n) × (n < half_word))
      → set_units ops cfg o t ≡ (o', none)
      → Sized o o'
  unfolding set_units
  set_units-Sized o o' none p h = absurd (cc)
  set_units-Sized o o' (some n) p h = record {
    units = n;
    positive = (p n refl).0;
    small = (p n refl).1;
    priced = validate_price-Priced _ o' o.order_type refl h;
  }

  validate_quantity-Sized : (o o' : Order) → validate_quantity ops cfg o ≡ (o', none) → Sized o o'
  unfolding validate_quantity
  validate_quantity-Sized o o' h = elim (Bool-cases (not_positive o.quantity)) [
    | inl bad ↦ absurd (cc (rw bad at h))
    | inr good ↦ elim (Bool-cases (out_of_range cfg o.quantity)) [
      | inl far ↦ absurd (cc (rw (good, far) at h))
      | inr near ↦
          set_units-Sized o o' (positive_ticks (to_ticks ops o.quantity (pos_part cfg.qty_scale)))
            (λ n q. positive_ticks-bounds ops o.quantity _ n q) (rw (good, near) at h)
    ]
  ]

  tif_for-valid :
      (ty : OrderType) (t : Tif)
      → valid_tif t ≡ true
      → (valid_tif (tif_for ty t) ≡ true) × (ty ≡ market → tif_for ty t ≢ gtc)
  unfolding valid_tif tif_for
  tif_for-valid limit t h = (h, λ e. cc)
  tif_for-valid bad_type t h = (h, λ e. cc)
  tif_for-valid market gtc h = (refl, λ e q. cc)
  tif_for-valid market ioc h = (refl, λ e q. cc)
  tif_for-valid market fok h = (refl, λ e q. cc)
  tif_for-valid market default_tif h = absurd (cc)
  tif_for-valid market bad_tif h = absurd (cc)

  Sized-Ready :
      (o o' : Order)
      → valid_side o.side ≡ true
      → valid_tif (tif_or_gtc o.tif) ≡ true
      → Sized (record o { tif = tif_for o.order_type (tif_or_gtc o.tif) }) o'
      → Ready o o'
  Sized-Ready o o' vs vt z =
      let e = z.priced.rest in
      let t = tif_for-valid o.order_type (tif_or_gtc o.tif) vt in
      record {
        side = ap (λ (x : Order). x.side) e;
        side_valid = rw (ap (λ (x : Order). x.side) e) vs;
        order_type = ap (λ (x : Order). x.order_type) e;
        trader = ap (λ (x : Order). x.trader) e;
        order_id = ap (λ (x : Order). x.order_id) e;
        status = ap (λ (x : Order). x.status) e;
        fresh = ap (λ (x : Order). x.filled_units) e;
        positive = rw (ap (λ (x : Order). x.qty_units) e) z.positive;
        small = rw (ap (λ (x : Order). x.qty_units) e) z.small;
        priced = λ l. z.priced.priced (sym (ap (λ (x : Order). x.order_type) e) ∙ l);
        tif = ap (λ (x : Order). x.tif) e;
        tif_valid = rw (ap (λ (x : Order). x.tif) e) t.0;
        market_kills = λ m q.
            t.1 (sym (ap (λ (x : Order). x.order_type) e) ∙ m)
              (sym (ap (λ (x : Order). x.tif) e) ∙ q);
      }

  -- What passes is a well-formed order of positive size with nothing filled.
  pub validate-Ready : (o o' : Order) → validate ops cfg o ≡ (o', none) → Ready o o'
  unfolding validate
  validate-Ready o o' h = elim (Bool-cases (valid_side o.side)) [
    | inr bad ↦ absurd (cc (rw bad at h))
    | inl vs ↦ elim (Bool-cases (valid_type o.order_type)) [
      | inr bad ↦ absurd (cc (rw (vs, bad) at h))
      | inl vy ↦ elim (Bool-cases (valid_tif (tif_or_gtc o.tif))) [
        | inr bad ↦ absurd (cc (rw (vs, vy, bad) at h))
        | inl vt ↦ Sized-Ready o o' vs vt (validate_quantity-Sized _ o' (rw (vs, vy, vt) at h))
      ]
    ]
  ]
