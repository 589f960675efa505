-- ===== src/OrderBook/Terms.antt =====
-- What Submit leaves of the book: nothing that still crosses, nothing changed by a refusal, and no
-- remainder of an order that may not rest. A fill-or-kill order fills whole, or not at all.
use tiger_swap.Prelude.{
  ℕ, ◌+◌, ◌-◌, ◌≡◌, ◌≢◌, refl, ◌⊎◌, inl, inr, true, false, List, [], ◌∷◌, none, arith, ◌∙◌, sym,
  subst, Bool-cases, leb,
}
use tiger_swap.OrderBook.Types.{
  Side, buy, sell, bad_side, cancelled, rejected, Order, Env, leaves_units, opposite_side,
}
use tiger_swap.OrderBook.Side.{Level, SideBook}
use tiger_swap.OrderBook.Book.{Book, sync_public, side_for, with_side, valid_side}
use tiger_swap.OrderBook.Match.{MatchState, run_match, end_match, match_order, written_back, tick}
use tiger_swap.OrderBook.Submit.{Submitted, place, reject, submit, can_rest}
use tiger_swap.OrderBook.Loops.{Blocked}
use tiger_swap.OrderBook.Matching.{BookOk}
use tiger_swap.OrderBook.Matched.{Incoming, Matched, match_order-Matched, Kept-run}
use tiger_swap.OrderBook.Placing.{place-filled, place-rests, place-killed, rested}
use tiger_swap.OrderBook.Submitting.{stamp, submit-cases, tick-BookOk, Ready-Incoming}
use tiger_swap.OrderBook.Outcome.{Placed, place-Placed, Placed-crosses, side_for-tick}

-- Everything but the clock is as it was.
pub record SameBook (b c : Book) : Type 0 where
  pub cfg : c.cfg ≡ b.cfg
  pub bids : c.bids ≡ b.bids
  pub asks : c.asks ≡ b.asks
  pub last_price : c.last_price_tk ≡ b.last_price_tk
  pub open_orders : c.open_orders ≡ b.open_orders
  pub tape : c.tape ≡ b.tape

-- A submission that is refused trades nothing, leaves everything of the book but the clock as it was,
-- and returns its order as rejected.
pub submit_refused :
    (env : Env) (b : Book) (o : Order)
    → (submit env b o).error ≢ none
    → ((submit env b o).trades ≡ [])
      × SameBook b (submit env b o).book
      × ((submit env b o).order.status ≡ rejected)
unfolding reject sync_public
submit_refused env b o =
    submit-cases
      (λ r. r.error ≢ none → (r.trades ≡ []) × SameBook b r.book × (r.order.status ≡ rejected)) env
      b o (λ o' e h. (refl, same b.clock_reads, refl))
      (λ o' r t h. (refl, same (b.clock_reads + 1), refl))
      (λ o' r t h. absurd (h (place-Placed env (match_order env (tick b) (stamp env b o'))).error))
  where
    same : (n : ℕ) → SameBook b (record b { clock_reads = n })
    same n = record {
      cfg = refl;
      bids = refl;
      asks = refl;
      last_price = refl;
      open_orders = refl;
      tape = refl;
    }

module _ (b : Book) where
  -- A side that is written does not touch the other one.
  with_side-other :
      (c : Book) (sd : Side) (t : SideBook)
      → valid_side sd ≡ true
      → side_for (with_side c sd t) (opposite_side sd) ≡ side_for c (opposite_side sd)
  unfolding with_side side_for opposite_side valid_side
  with_side-other c buy t v = refl
  with_side-other c sell t v = refl
  with_side-other c bad_side t v = absurd (cc)

  written_back-own :
      (r : MatchState) (sd : Side)
      → valid_side sd ≡ true
      → side_for (written_back r (opposite_side sd)) sd ≡ side_for r.book sd
  unfolding written_back with_side side_for opposite_side valid_side
  written_back-own r buy v = refl
  written_back-own r sell v = refl
  written_back-own r bad_side v = absurd (cc)

  rested-other :
      (c : Book) (sd : Side) (o : Order)
      → valid_side sd ≡ true
      → side_for (rested c sd o) (opposite_side sd) ≡ side_for c (opposite_side sd)
  unfolding with_side side_for opposite_side valid_side
  rested-other c buy o v = refl
  rested-other c sell o v = refl
  rested-other c bad_side o v = absurd (cc)

Placed-Blocked :
    (s : MatchState) (r : Submitted)
    → Placed s r
    → (ls : List Level) → Blocked s.taker ls
    → Blocked r.order ls
Placed-Blocked s r p [] h = tt
Placed-Blocked s r p (l ∷ ls) h = Placed-crosses s r p l.price_ticks ∙ h

-- What is left of the order no longer crosses the side that it took from.
module _ (env : Env) (b : Book) (o : Order) (i : Incoming o) (s : MatchState)
    (m : Matched b o s) where
  place-other :
      side_for (place env s).book (opposite_side o.side) ≡ side_for s.book (opposite_side o.side)
  place-other = elim (Bool-cases (leb (leaves_units s.taker) 0)) [
    | inl filled ↦ rw (place-filled env s (ground arith)) refl
    | inr left ↦ elim (Bool-cases (can_rest s.taker)) [
      | inl c ↦ rw (place-rests env s (ground arith) c) (
          subst
            (λ sd.
              side_for (rested s.book sd (sync_public env.ops s.book.cfg s.taker))
                (opposite_side o.side)
              ≡ side_for s.book (opposite_side o.side))
            (sym m.same.side) (rested-other b s.book o.side _ i.side_valid))
      | inr c ↦ rw (place-killed env s (ground arith) c) refl
    ]
  ]

  place-over :
      (leaves_units (place env s).order ≡ 0)
      ⊎ Blocked (place env s).order (side_for (place env s).book (opposite_side o.side)).levels
  unfolding leaves_units
  place-over =
      let p = place-Placed env s in
      elim m.over [
        | inl filled ↦ inl (rw (p.qty_units, p.filled_units) filled)
        | inr blocked ↦ inr (rw place-other (Placed-Blocked s (place env s) p _ blocked))
      ]

-- Matching stops only when it must: an accepted order is filled, or the best level that is left on the
-- opposite side of the book after the submission is beyond its limit, or there is none.
pub submit_exhausts :
    (env : Env) (b : Book) (o : Order)
    → BookOk b
    → (submit env b o).error ≡ none
    → (leaves_units (submit env b o).order ≡ 0)
      ⊎ Blocked
          (submit env b o).order
          (side_for (submit env b o).book (opposite_side o.side)).levels
unfolding reject
submit_exhausts env b o ok =
    submit-cases
      (λ r.
        r.error ≡ none
        → (leaves_units r.order ≡ 0)
          ⊎ Blocked r.order (side_for r.book (opposite_side o.side)).levels)
      env b o (λ o' e h. absurd (cc)) (λ o' r t h. absurd (cc))
      (λ o' r t h.
        let i = Ready-Incoming env b o o' r in
        let over =
          place-over env (tick b) (stamp env b o') i _
            (match_order-Matched env (tick b) (stamp env b o') (tick-BookOk ok) i) in
        subst
          (λ sd.
            (leaves_units (place env (match_order env (tick b) (stamp env b o'))).order ≡ 0)
            ⊎ Blocked (place env (match_order env (tick b) (stamp env b o'))).order
                (side_for (place env (match_order env (tick b) (stamp env b o'))).book
                  (opposite_side sd)).levels)
          r.side over)

module _ (env : Env) (b : Book) (o : Order) (ok : BookOk b) (i : Incoming o) where
  own_side : side_for (match_order env b o).book o.side ≡ side_for b o.side
  unfolding match_order end_match
  own_side =
      let k = Kept-run env b o ok i in
      subst
        (λ sd.
          side_for (written_back (run_match env b o) (opposite_side sd)) o.side ≡ side_for b o.side)
        (sym k.same.side)
        (written_back-own b (run_match env b o) o.side i.side_valid
          ∙ frame_side o.side k.frame.bids k.frame.asks)
    where
      frame_side :
          (sd : Side)
          → (run_match env b o).book.bids ≡ b.bids
          → (run_match env b o).book.asks ≡ b.asks
          → side_for (run_match env b o).book sd ≡ side_for b sd
      frame_side buy x y = unfold side_for in x
      frame_side sell x y = unfold side_for in y
      frame_side bad_side x y = unfold side_for in y

  place-kills :
      can_rest (match_order env b o).taker ≡ false
      → (side_for (place env (match_order env b o)).book o.side ≡ side_for b o.side)
        × ((leaves_units (place env (match_order env b o)).order ≡ 0)
            ⊎ ((place env (match_order env b o)).order.status ≡ cancelled))
  unfolding sync_public leaves_units
  place-kills c =
      let s = match_order env b o in
      elim (Bool-cases (leb (s.taker.qty_units - s.taker.filled_units) 0)) [
        | inl filled ↦
            rw (place-filled env (match_order env b o) (ground arith))
              (own_side, inl (ground arith))
        | inr left ↦
            rw (place-killed env (match_order env b o) (ground arith) c) (own_side, inr refl)
      ]

Placed-can_rest :
    (s : MatchState) (r : Submitted) → Placed s r → can_rest r.order ≡ can_rest s.taker
unfolding can_rest
Placed-can_rest s r p = ground (arith, p.order_type, p.tif)

-- An accepted order that is a market order, or not good till cancelled, never rests: its own side of
-- the book is as it was, and the order is filled or its remainder is cancelled.
pub submit_kills :
    (env : Env) (b : Book) (o : Order)
    → BookOk b
    → (submit env b o).error ≡ none
    → can_rest (submit env b o).order ≡ false
    → (side_for (submit env b o).book o.side ≡ side_for b o.side)
      × ((leaves_units (submit env b o).order ≡ 0) ⊎ ((submit env b o).order.status ≡ cancelled))
unfolding reject
submit_kills env b o ok =
    submit-cases
      (λ r.
        r.error ≡ none
        → can_rest r.order ≡ false
        → (side_for r.book o.side ≡ side_for b o.side)
          × ((leaves_units r.order ≡ 0) ⊎ (r.order.status ≡ cancelled)))
      env b o (λ o' e h. absurd (cc)) (λ o' r t h. absurd (cc))
      (λ o' r t h c.
        let i = Ready-Incoming env b o o' r in
        let s = match_order env (tick b) (stamp env b o') in
        let k =
          place-kills env (tick b) (stamp env b o') (tick-BookOk ok) i
            (sym (Placed-can_rest s (place env s) (place-Placed env s)) ∙ c) in
        (
          subst (λ sd. side_for (place env s).book sd ≡ side_for b sd) r.side
              (k.0 ∙ side_for-tick b o'.side),
          k.1,
        ))
