-- ===== src/OrderBook/Depth.antt =====
-- availableUnits against the exact depth of a side, and the fill of an order for which the depth
-- suffices.
use tiger_swap.Prelude.{
  ◌≤◌, ℕ, ◌+◌, ◌%◌, ◌≡◌, refl, ◌⊎◌, inl, inr, true, false, List, [], ◌∷◌, arith, All, ap, ◌∙◌, sym,
  subst, if◌then◌else◌, Bool-cases,
}
use text.Mathlib.Text.{◌==◌ as str_eq}
use tiger_swap.Prelude.Word.{word, add64}
use tiger_swap.OrderBook.Types.{Side, Order, Env, leaves_units}
use tiger_swap.OrderBook.Side.{Level, SideBook}
use tiger_swap.OrderBook.Book.{crosses}
use tiger_swap.OrderBook.Match.{MatchState}
use tiger_swap.OrderBook.Submit.{available_from}
use tiger_swap.OrderBook.Invariant.{units, side_units, LevelOk, SideOk}
use tiger_swap.OrderBook.Step.{
  put, put-elim, traded, IsReplaced, Head, Trades, SameTerms, Step, cancels, fills, part,
  add_filled, own,
}
use tiger_swap.OrderBook.Runs.{SameTaker, Step-SameTaker, crosses-SameTaker}
use tiger_swap.OrderBook.Volume.{Step-SideOk, leaves-settled, Head-IsResting}
use tiger_swap.OrderBook.Fairness.{SameTaker-trans}
use tiger_swap.OrderBook.Loops.{Blocked}

-- The units of the levels that the order crosses, best level first, up to the first that it does not.
unfoldable pub depth_units : Order → List Level → ℕ
depth_units o [] = 0
depth_units o (l ∷ ls) = if crosses o l.price_ticks then units l.orders + depth_units o ls else 0

add64-mod-mod : (a b : ℕ) → add64 (a % word) (b % word) ≡ (a + b) % word
unfolding add64
add64-mod-mod a b = omega arith

-- On levels whose totals are in step with their orders, `availableUnits`, started from a wrapped sum, is
-- that sum and the exact depth that the order crosses, modulo 2^64.
pub available_from-depth :
    (kind : Side) (o : Order) (ls : List Level) (n : ℕ)
    → All (LevelOk kind) ls
    → available_from o ls (n % word) ≡ (n + depth_units o ls) % word
unfolding available_from depth_units
available_from-depth kind o [] n h = omega arith
available_from-depth kind o (l ∷ ls) n h = elim (Bool-cases (crosses o l.price_ticks)) [
  | inr stops ↦ rw (stops) (ap (λ k. k % word) (omega arith))
  | inl goes ↦
      rw (goes, h.0.total)
        (rw (add64-mod-mod n (units l.orders)) (
          available_from-depth kind o ls (n + units l.orders) h.1
          ∙ ap (λ k. k % word) (omega arith)))
]

-- No order of the side belongs to the taker.
abbrev pub NoOwn : Order → List Level → Type 0
NoOwn o ls = All (λ (l : Level). All (λ m. own m o ≡ false) l.orders) ls

depth_units-put :
    (o : Order) (l : Level) (rest : List Level)
    → crosses o l.price_ticks ≡ true
    → depth_units o (put l rest) ≡ units l.orders + depth_units o rest
unfolding depth_units units
depth_units-put o l rest c =
    put-elim (λ ls. depth_units o ls ≡ units l.orders + depth_units o rest) l rest
      (λ e. rw e (omega arith)) (λ _. rw c refl)

pub depth_units-Blocked : (o : Order) (ls : List Level) → Blocked o ls → depth_units o ls ≡ 0
unfolding depth_units
depth_units-Blocked o [] b = refl
depth_units-Blocked o (l ∷ ls) b = rw b refl

-- The depth is at most all that the side holds.
pub depth_units-le : (o : Order) (ls : List Level) → depth_units o ls ≤ side_units ls
unfolding depth_units side_units
depth_units-le o [] = omega arith
depth_units-le o (l ∷ ls) = ground (arith, depth_units-le o ls)

-- While no order of the side is the taker's own, the depth goes into the order's fill alone.
pub record Deep (kind : Side) (s₀ : MatchState) (d : ℕ) (s : MatchState) : Type 0 where
  pub side_ok : SideOk kind s.opposite
  pub same : SameTaker s₀ s
  pub no_own : NoOwn s₀.taker s.opposite.levels
  pub total : depth_units s₀.taker s.opposite.levels + s.taker.filled_units ≡ d

module _ (kind : Side) (s₀ : MatchState) (d : ℕ) where
  replaced-NoOwn :
      (s t : SideBook) (l l' : Level) (rest : List Level)
      → s.levels ≡ l ∷ rest
      → IsReplaced s t l' rest
      → (All (λ m. own m s₀.taker ≡ false) l.orders → All (λ m. own m s₀.taker ≡ false) l'.orders)
      → NoOwn s₀.taker s.levels
      → NoOwn s₀.taker t.levels
  replaced-NoOwn s t l l' rest e r keep h =
      let h' = subst (NoOwn s₀.taker) e h in
      rw r.levels (put-elim (NoOwn s₀.taker) l' rest (λ _. h'.1) (λ _. (keep h'.0, h'.1)))

  -- A trade of `qty` moves that much of the depth into the fill.
  Trades-Deep :
      {env : Env} (s t : MatchState) (l : Level) (rest : List Level) (m : Order)
      (os orders : List Order) (qty : ℕ)
      → Head s l rest m os
      → Trades env s t l m qty
      → IsReplaced s.opposite t.opposite (traded l orders qty) rest
      → units orders + qty ≡ units (m ∷ os)
      → Deep kind s₀ d s
      → depth_units s₀.taker t.opposite.levels + t.taker.filled_units ≡ d
  unfolding depth_units
  Trades-Deep s t l rest m os orders qty h tr r u g =
      omega (arith, ap (λ (o : Order). o.filled_units) tr.taker, before, after, g.total)
    where
      meets : crosses s₀.taker l.price_ticks ≡ true
      meets = sym (crosses-SameTaker g.same l.price_ticks) ∙ h.crossing

      before : depth_units s₀.taker s.opposite.levels ≡ units (m ∷ os) + depth_units s₀.taker rest
      before = rw (h.levels, meets, h.orders) refl

      after : depth_units s₀.taker t.opposite.levels ≡ units orders + depth_units s₀.taker rest
      after = rw r.levels (depth_units-put s₀.taker (traded l orders qty) rest meets)

  -- Nothing is cancelled: no order is the taker's own, and each has something left.
  cancels-Deep :
      (s : MatchState) (l : Level) (rest : List Level) (m : Order) (os : List Order)
      → Head s l rest m os
      → Deep kind s₀ d s
      → ¬ ((own m s.taker ≡ true) ⊎ (leaves_units m ≡ 0))
  cancels-Deep s l rest m os h g (inr none_left) = omega (arith, Head-IsResting kind h g.side_ok)
  cancels-Deep s l rest m os h g (inl mine) =
      let others = subst (NoOwn s₀.taker) h.levels g.no_own in
      let first = subst (All (λ m. own m s₀.taker ≡ false)) h.orders others.0 in
      let other = subst (λ r. str_eq m.trader r ≡ false) (sym g.same.trader) first.0 in cc

  own-settled :
      (m m' : Order) (qty : ℕ)
      → SameTerms (add_filled m qty) m'
      → own m s₀.taker ≡ false
      → own m' s₀.taker ≡ false
  own-settled m m' qty st h = rw st.trader h

  Step-NoOwn :
      {env : Env} (s t : MatchState)
      → Step env s t
      → Deep kind s₀ d s
      → NoOwn s₀.taker t.opposite.levels
  Step-NoOwn s t (cancels l rest m os h w fr tk tr tp op n) g =
      absurd (cancels-Deep s l rest m os h g w)
  Step-NoOwn s t (fills l rest m os h a b fr tr op n) g =
      replaced-NoOwn s.opposite t.opposite l _ rest h.levels op
        (λ k. (subst (All (λ m. own m s₀.taker ≡ false)) h.orders k).1) g.no_own
  Step-NoOwn s t (part l rest m m' os h a fr tr st op n) g =
      replaced-NoOwn s.opposite t.opposite l _ rest h.levels op
        (λ k.
          let k' = subst (All (λ m. own m s₀.taker ≡ false)) h.orders k in
          (own-settled m m' _ st k'.0, k'.1))
        g.no_own

  Step-total :
      {env : Env} (s t : MatchState)
      → Step env s t
      → Deep kind s₀ d s
      → depth_units s₀.taker t.opposite.levels + t.taker.filled_units ≡ d
  unfolding units
  Step-total s t (cancels l rest m os h w fr tk tr tp op n) g =
      absurd (cancels-Deep s l rest m os h g w)
  Step-total s t (fills l rest m os h a b fr tr op n) g =
      Trades-Deep s t l rest m os os _ h tr op (omega arith) g
  Step-total s t (part l rest m m' os h a fr tr st op n) g =
      Trades-Deep s t l rest m os (m' ∷ os) _ h tr op
        (omega (arith, leaves-settled m m' (leaves_units s.taker) st)) g

  pub Step-Deep :
      {env : Env} (s t : MatchState) → Step env s t → Deep kind s₀ d s → Deep kind s₀ d t
  Step-Deep s t st g = record {
    side_ok = Step-SideOk kind s t st g.side_ok;
    same = SameTaker-trans s₀ g.same (Step-SameTaker s t st);
    no_own = Step-NoOwn s t st g;
    total = Step-total s t st g;
  }
