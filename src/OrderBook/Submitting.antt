-- ===== src/OrderBook/Submitting.antt =====
-- Submit on a valid book: it stays valid, and every outcome is as the order's terms say.
use tiger_swap.Prelude.{
  ◌≡◌, refl, inl, inr, Bool, true, false, ◌&&◌, Option, none, some, Bool-cases,
}
use tiger_swap.Prelude.Word.{slt64}
use tiger_swap.OrderBook.Types.{BookError, no_liquidity, Order, Env}
use tiger_swap.OrderBook.Book.{Book, validate}
use tiger_swap.OrderBook.Match.{match_order, tick, now}
use tiger_swap.OrderBook.Submit.{
  Submitted, place, reject, submit_valid, submit, available_units, is_fok,
}
use tiger_swap.OrderBook.Matching.{BookOk}
use tiger_swap.OrderBook.Matched.{Incoming, match_order-Matched}
use tiger_swap.OrderBook.Placing.{place-BookOk}
use tiger_swap.OrderBook.Validation.{Ready, validate-Ready}

abbrev pub stamp : Env → Book → Order → Order
stamp env b o = record o { created_at = now env b; updated_at = now env b }

-- The book lacks the depth for a fill-or-kill order, as `Submit` measures it.
abbrev pub too_thin : Book → Order → Bool
too_thin b o = is_fok o.tif && slt64 (available_units b o) o.qty_units

-- Every outcome of Submit: refused by the validation, refused for want of depth, or matched.
pub submit-cases {ℓ} :
    (P : Submitted → Type ℓ) (env : Env) (b : Book) (o : Order)
    → ((o' : Order) (e : BookError) → P (reject env b o' e))
    → ((o' : Order)
        → Ready o o'
        → too_thin b o' ≡ true
        → P (reject env (tick b) (stamp env b o') no_liquidity))
    → ((o' : Order)
        → Ready o o'
        → too_thin b o' ≡ false
        → P (place env (match_order env (tick b) (stamp env b o'))))
    → P (submit env b o)
unfolding submit
submit-cases P env b o bad thin good =
    go (validate env.ops b.cfg o).0 (validate env.ops b.cfg o).1 refl
  where
    go :
        (o' : Order) (e : Option BookError)
        → validate env.ops b.cfg o ≡ (o', e)
        → P (elim e [ none ↦ submit_valid env b o' | some x ↦ reject env b o' x ])
    go o' (some e) q = bad o' e
    go o' none q = elim (Bool-cases (too_thin b o')) [
      | inl t ↦ unfold submit_valid in rw t (thin o' (validate-Ready env.ops b.cfg o o' q) t)
      | inr f ↦ unfold submit_valid in rw f (good o' (validate-Ready env.ops b.cfg o o' q) f)
    ]

pub tick-BookOk : {b : Book} → BookOk b → BookOk (tick b)
tick-BookOk ok = record { bids = ok.bids; asks = ok.asks; counts = ok.counts; apart = ok.apart }

pub Ready-Incoming : (env : Env) (b : Book) (o o' : Order) → Ready o o' → Incoming (stamp env b o')
Ready-Incoming env b o o' r = record {
  side_valid = r.side_valid;
  fresh = r.fresh;
  positive = r.positive;
  small = r.small;
}

-- Submit keeps the book valid on every branch: both sides sorted with no empty level, index and totals
-- in step, the open orders counted, and every bid below every ask.
pub submit-BookOk : (env : Env) (b : Book) (o : Order) → BookOk b → BookOk (submit env b o).book
unfolding reject
submit-BookOk env b o ok =
    submit-cases (λ r. BookOk r.book) env b o (λ o' e. ok) (λ o' r t. tick-BookOk ok)
      (λ o' r f.
        let i = Ready-Incoming env b o o' r in
        place-BookOk env (tick b) (stamp env b o') i _
          (match_order-Matched env (tick b) (stamp env b o') (tick-BookOk ok) i))
