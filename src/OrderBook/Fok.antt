-- ===== src/OrderBook/Fok.antt =====
-- Fill-or-kill: the order fills whole or nothing happens, unless the trader's own orders are in the way.
use tiger_swap.Prelude.{
  ℕ, ◌%◌, ◌<◌, ◌≤◌, ◌≡◌, refl, inl, inr, false, List, [], ◌∷◌, none, arith, All, ap, ◌∙◌, sym,
  subst,
}
use text.Mathlib.Text.{◌==◌ as str_eq}
use tiger_swap.Prelude.Word.{half_word, word, slt64}
use tiger_swap.OrderBook.Types.{OrderType, Tif, fok, Order, Env, leaves_units, opposite_side}
use tiger_swap.OrderBook.Side.{Level, SideBook}
use tiger_swap.OrderBook.Book.{Book, crosses, side_for, tif_for, tif_or_gtc}
use tiger_swap.OrderBook.Match.{start_match, run_match, end_match, match_order, tick}
use tiger_swap.OrderBook.Submit.{reject, submit, available_units, is_fok}
use tiger_swap.OrderBook.Invariant.{side_units}
use tiger_swap.OrderBook.Runs.{SameTaker-refl, Reach-keeps, crosses-SameTaker}
use tiger_swap.OrderBook.Loops.{Blocked}
use tiger_swap.OrderBook.Depth.{
  depth_units, depth_units-le, available_from-depth, NoOwn, Deep, Step-Deep, depth_units-Blocked,
}
use tiger_swap.OrderBook.Matching.{BookOk, Kept}
use tiger_swap.OrderBook.Matched.{
  Incoming, match_order-Matched, done_run, Kept-run, side_for-SideOk, opposite_kind,
}
use tiger_swap.OrderBook.Validation.{Ready}
use tiger_swap.OrderBook.Submitting.{stamp, too_thin, submit-cases, tick-BookOk, Ready-Incoming}
use tiger_swap.OrderBook.Outcome.{place-Placed, side_for-tick}

abbrev opposite_levels : Book → Order → List Level
opposite_levels b o = (side_for b (opposite_side o.side)).levels

module _ (b : Book) (o : Order) (ok : BookOk b) (i : Incoming o) where
  available-depth : available_units b o ≡ depth_units o (opposite_levels b o) % word
  unfolding available_units
  available-depth =
      available_from-depth (opposite_side o.side) o (side_for b (opposite_side o.side)).levels 0
        (side_for-SideOk b _ ok (opposite_kind o i.side_valid)).levels_ok
      ∙ ap (λ n. n % word) (omega arith)

  -- The test of Submit lets through only what the depth covers.
  enough :
      side_units (opposite_levels b o) < half_word
      → slt64 (available_units b o) o.qty_units ≡ false
      → o.qty_units ≤ depth_units o (opposite_levels b o)
  unfolding slt64
  enough small t =
      ground (arith, rw available-depth at t, depth_units-le o (opposite_levels b o), i.small)

  module _ (env : Env) where
    -- What matching fills, if the depth covers the order and none of it is the trader's own.
    fills_whole :
        NoOwn o (opposite_levels b o)
        → o.qty_units ≤ depth_units o (opposite_levels b o)
        → (match_order env b o).taker.filled_units ≡ o.qty_units
    unfolding match_order end_match leaves_units
    fills_whole no_own le = elim (done_run env b o ok i).over [
      | inl filled ↦ omega (arith, k.same.qty_units, k.gains.within)
      | inr blocked ↦
          let none_left = depth_units-Blocked o _ (start-Blocked _ blocked) in
          omega (arith, k.same.qty_units, k.gains.within, deep.total, i.fresh, none_left)
    ]
      where
        k : Kept (opposite_side o.side) (start_match b o) (run_match env b o)
        k = Kept-run env b o ok i

        start-Blocked : (ls : List Level) → Blocked (run_match env b o).taker ls → Blocked o ls
        start-Blocked [] h = tt
        start-Blocked (l ∷ ls) h = sym (crosses-SameTaker k.same l.price_ticks) ∙ h

        depth : ℕ
        depth = depth_units o (side_for b (opposite_side o.side)).levels

        deep : Deep (opposite_side o.side) (start_match b o) depth (run_match env b o)
        deep =
            Reach-keeps (Deep (opposite_side o.side) (start_match b o) depth)
              (Step-Deep (opposite_side o.side) (start_match b o) depth)
              (done_run env b o ok i).reach
              (record {
                side_ok = side_for-SideOk b _ ok (opposite_kind o i.side_valid);
                same = SameTaker-refl (start_match b o);
                no_own = no_own;
                total = omega (arith, i.fresh);
              })

NoOwn-trader : (o o' : Order) (ls : List Level) → o'.trader ≡ o.trader → NoOwn o ls → NoOwn o' ls
NoOwn-trader o o' ls e h =
    subst (λ t. All (λ (l : Level). All (λ (m : Order). str_eq m.trader t ≡ false) l.orders) ls)
      (sym e) h

depth_units-stamp :
    (env : Env) (b : Book) (o : Order) (ls : List Level)
    → depth_units (stamp env b o) ls ≡ depth_units o ls
unfolding depth_units crosses
depth_units-stamp env b o [] = refl
depth_units-stamp env b o (l ∷ ls) = ground (arith, depth_units-stamp env b o ls)

tif_for-fok : (ty : OrderType) (t : Tif) → t ≡ fok → tif_for ty (tif_or_gtc t) ≡ fok
unfolding tif_for tif_or_gtc
tif_for-fok ty t e = ground arith

module _ (env : Env) (b : Book) (o o' : Order) (ok : BookOk b) (r : Ready o o') (f : o.tif ≡ fok)
    (t : too_thin b o' ≡ false) where
  deep_enough :
      side_units (side_for b (opposite_side o'.side)).levels < half_word
      → o'.qty_units ≤ depth_units o' (side_for b (opposite_side o'.side)).levels
  unfolding is_fok
  deep_enough small =
      let e : o'.tif ≡ fok = r.tif ∙ tif_for-fok o.order_type o.tif f in
      enough b o' ok
        (record {
          side_valid = r.side_valid;
          fresh = r.fresh;
          positive = r.positive;
          small = r.small;
        })
        small (ground arith)

  whole :
      NoOwn o (side_for b (opposite_side o'.side)).levels
      → side_units (side_for b (opposite_side o'.side)).levels < half_word
      → (match_order env (tick b) (stamp env b o')).taker.filled_units ≡ o'.qty_units
  whole no_own small =
      fills_whole (tick b) (stamp env b o') (tick-BookOk ok) (Ready-Incoming env b o o' r) env
        (subst (λ (sb : SideBook). NoOwn (stamp env b o') sb.levels) (sym same)
          (NoOwn-trader o (stamp env b o') _ r.trader no_own))
        (subst (λ (sb : SideBook). o'.qty_units ≤ depth_units (stamp env b o') sb.levels) (sym same)
          (rw (depth_units-stamp env b o') (deep_enough small)))
    where
      same : side_for (tick b) (opposite_side o'.side) ≡ side_for b (opposite_side o'.side)
      same = side_for-tick b (opposite_side o'.side)

-- A fill-or-kill order that is accepted is filled whole, if none of the trader's own orders rests on the
-- opposite side and that side holds less than 2^63 units in all.
pub submit_fok :
    (env : Env) (b : Book) (o : Order)
    → BookOk b
    → o.tif ≡ fok
    → NoOwn o (side_for b (opposite_side o.side)).levels
    → side_units (side_for b (opposite_side o.side)).levels < half_word
    → (submit env b o).error ≡ none
    → (submit env b o).order.filled_units ≡ (submit env b o).order.qty_units
unfolding reject
submit_fok env b o ok f no_own small =
    submit-cases (λ r. r.error ≡ none → r.order.filled_units ≡ r.order.qty_units) env b o
      (λ o' e h. absurd (cc)) (λ o' r t h. absurd (cc))
      (λ o' r t h.
        let p = place-Placed env (match_order env (tick b) (stamp env b o')) in
        let i = Ready-Incoming env b o o' r in
        let m = match_order-Matched env (tick b) (stamp env b o') (tick-BookOk ok) i in
        p.filled_units
        ∙ whole env b o o' ok r f t (rw r.side no_own) (rw r.side small)
        ∙ sym (p.qty_units ∙ m.same.qty_units))
