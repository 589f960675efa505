-- ===== src/OrderBook/Taking.antt =====
-- Finding a resting order by its id, and taking it out of its level's orders.
use tiger_swap.Prelude.{
  ℕ, suc, ◌+◌, ◌≡◌, refl, ◌⊎◌, inl, inr, List, [], ◌∷◌, Option, some, arith, All, ap, ◌∙◌, sym,
  subst, Bool-cases, Option-cases, ◌==◌, length,
}
use tiger_swap.OrderBook.Types.{Order, leaves_units}
use tiger_swap.OrderBook.Side.{Level, take_order}
use tiger_swap.OrderBook.Submit.{find_order, find_resting}
use tiger_swap.OrderBook.Invariant.{units}

-- The level is one of the list.
abbrev pub Holds : List Level → Level → Type 0
Holds [] l = ⊥
Holds (m ∷ ms) l = (m ≡ l) ⊎ Holds ms l

pub find_resting-Holds :
    (id : ℕ) (ls : List Level) (l : Level) (o : Order)
    → find_resting id ls ≡ some (l, o)
    → Holds ls l × (find_order id l.orders ≡ some o)
unfolding find_resting
find_resting-Holds id [] l o e = absurd (cc)
find_resting-Holds id (m ∷ ms) l o e = elim (Option-cases (find_order id m.orders)) [
  | inl none_here ↦
      let r = find_resting-Holds id ms l o (rw (none_here, find_resting) at e) in (inr r.0, r.1)
  | inr (x, here) ↦
      let found : Path (Option (Level × Order)) (some (m, x)) (some (l, o)) =
        rw (here, find_resting) at e in
      let same : m ≡ l = cc in
      let order_same : x ≡ o = cc in
      (
        inl same,
        subst (λ (k : Level). find_order id k.orders ≡ some o) same (here ∙ ap some order_same),
      )
]

-- What taking an order out of a list leaves.
pub record Taken (id : ℕ) (os : List Order) (o : Order) (rest : List Order) : Type 1 where
  pub took : take_order id os ≡ some (o, rest)
  pub units_eq : leaves_units o + units rest ≡ units os
  pub length_eq : suc (length rest) ≡ length os
  pub id_eq : o.order_id ≡ id
  pub still : (P : Order → Type 0) → All P os → All P rest
  pub taken_has : (P : Order → Type 0) → All P os → P o

pub take_order-Taken :
    (id : ℕ) (os : List Order) (o : Order)
    → find_order id os ≡ some o
    → (rest : List Order) × Taken id os o rest
unfolding find_order take_order units
take_order-Taken id [] o e = absurd (cc)
take_order-Taken id (x ∷ xs) o e = elim (Bool-cases (x.order_id == id)) [
  | inl hit ↦
      let x_is : x ≡ o = cc in
      (
        xs,
        record {
          took = ground arith;
          units_eq = ground arith;
          length_eq = refl;
          id_eq = ground arith;
          still = λ P a. a.1;
          taken_has = λ P a. subst P (x_is) a.0;
        },
      )
  | inr miss ↦
      let r = take_order-Taken id xs o (rw miss at e) in
      (
        x ∷ r.0,
        record {
          took = rw (miss, r.1.took) refl;
          units_eq = omega (arith, r.1.units_eq);
          length_eq = ap suc r.1.length_eq;
          id_eq = r.1.id_eq;
          still = λ P a. (a.0, r.1.still P a.1);
          taken_has = λ P a. r.1.taken_has P a.1;
        },
      )
]

-- An order that is found by an id has that id.
pub found_again :
    (id : ℕ) (os : List Order) (o : Order)
    → find_order id os ≡ some o
    → find_order o.order_id os ≡ some o
found_again id os o e =
    let (rest, t) = take_order-Taken id os o e in
    subst (λ n. find_order n os ≡ some o) (sym t.id_eq) e
