-- ===== src/OrderBook/Loops.antt =====
-- The two loops of `match`: the fuel suffices, every run is a sequence of steps, and the runs end only
-- when the order is filled or nothing that is left crosses it.
use tiger_swap.Prelude.{
  ℕ, zero, suc, ◌<◌, ◌≡◌, refl, ◌⊎◌, inl, inr, true, false, List, [], ◌∷◌, arith, leb, All,
  Bool-cases, ap, ◌∙◌, sym, length, subst,
}
use tiger_swap.OrderBook.Types.{Side, Order, Env, leaves_units}
use tiger_swap.OrderBook.Side.{Level}
use tiger_swap.OrderBook.Book.{crosses}
use tiger_swap.OrderBook.Match.{
  MatchState, FillState, fill_step, fill_level, settle_level, match_level, match_loop,
}
use tiger_swap.OrderBook.Invariant.{IsSorted}
use tiger_swap.OrderBook.Step.{Step}
use tiger_swap.OrderBook.Rounds.{Round, fill_step-Round}
use tiger_swap.OrderBook.Runs.{
  Reach, done, more, Reach-trans, Reach-keeps, Step-SameTaker, crosses-SameTaker, HasOrders,
  Ordered, Step-Ordered,
}

-- The end of the inner loop: the order is filled, or the level is gone from the side.
pub record LevelDone (env : Env) (s t : MatchState) (rest : List Level) : Type 0 where
  pub reach : Reach env s t
  pub over : (leaves_units t.taker ≡ 0) ⊎ (t.opposite.levels ≡ rest)

LevelDone-more :
    {env : Env} {s t u : MatchState} {rest : List Level}
    → Step env s t
    → LevelDone env t u rest
    → LevelDone env s u rest
LevelDone-more st d = record { reach = more st d.reach; over = d.over }

fill_level-empty :
    (n : ℕ) (env : Env) (f : FillState) → f.level.orders ≡ [] → fill_level n env f ≡ f
unfolding fill_level
fill_level-empty zero env f e = refl
fill_level-empty (suc n) env f e = ground arith

settle_level-held :
    (f : FillState) (o : Order) (os : List Order) → f.level.orders ≡ o ∷ os → settle_level f ≡ f.run
unfolding settle_level
settle_level-held f o os e = ground arith

fill_level-next :
    (n : ℕ) (env : Env) (s : MatchState) (l : Level) (maker : Order) (others : List Order)
    → l.orders ≡ maker ∷ others
    → leb (leaves_units s.taker) 0 ≡ false
    → fill_level (suc n) env (record { run = s; level = l })
      ≡ fill_level n env (fill_step env s l maker others)
unfolding fill_level
fill_level-next n env s l maker others e w = ground arith

fill_level-stop :
    (n : ℕ) (env : Env) (f : FillState)
    → leb (leaves_units f.run.taker) 0 ≡ true
    → fill_level (suc n) env f ≡ f
unfolding fill_level
fill_level-stop n env f w = ground arith

fill_level-none : (env : Env) (f : FillState) → fill_level zero env f ≡ f
unfolding fill_level
fill_level-none env f = refl

fill_level-filled :
    (n : ℕ) (env : Env) (f : FillState) → leaves_units f.run.taker ≡ 0 → fill_level n env f ≡ f
fill_level-filled zero env f w = fill_level-none env f
fill_level-filled (suc n) env f w = fill_level-stop n env f (ground arith)

fill_level-LevelDone :
    (env : Env) (kind : Side) (n : ℕ) (s : MatchState) (l : Level) (rest : List Level)
    (maker : Order) (others : List Order)
    → s.opposite.levels ≡ l ∷ rest
    → l.orders ≡ maker ∷ others
    → Ordered kind s
    → crosses s.taker l.price_ticks ≡ true
    → length others < n
    → LevelDone env s (settle_level (fill_level n env (record { run = s; level = l }))) rest
fill_level-LevelDone env kind zero s l rest maker others e m o c fuel = absurd (omega arith)
fill_level-LevelDone env kind (suc n) s l rest maker others e m o c fuel =
    elim (Bool-cases (leb (leaves_units s.taker) 0)) [
      | inl filled ↦
          rw
            (
              fill_level-stop n env (record { run = s; level = l }) filled,
              settle_level-held (record { run = s; level = l }) maker others m,
            )
            (record { reach = done; over = inl (ground arith) })
      | inr wants ↦ rw (fill_level-next n env s l maker others m wants) (
          after (fill_step env s l maker others) (round wants)
            (λ l' maker' others' e' m' o' c' fuel'.
              fill_level-LevelDone env kind n (settle_level (fill_step env s l maker others)) l'
                rest maker' others' e' m' o' c' fuel'))
    ]
  where
    sorted : IsSorted kind (l ∷ rest)
    sorted = subst (IsSorted kind) e o.sorted

    round :
        leb (leaves_units s.taker) 0 ≡ false
        → Round env s l rest others (fill_step env s l maker others)
    round w =
        fill_step-Round env kind s l rest maker others
          (record { levels = e; orders = m; wants = ground arith; crossing = c }) o.indexed sorted.0

    after :
        (f : FillState)
        → Round env s l rest others f
        → ((l' : Level) (maker' : Order) (others' : List Order)
            → (settle_level f).opposite.levels ≡ l' ∷ rest
            → l'.orders ≡ maker' ∷ others'
            → Ordered kind (settle_level f)
            → crosses (settle_level f).taker l'.price_ticks ≡ true
            → length others' < n
            → LevelDone env
                (settle_level f)
                (settle_level (fill_level n env (record { run = settle_level f; level = l' })))
                rest)
        → LevelDone env s (settle_level (fill_level n env f)) rest
    after f r ih = go f.level.orders refl
      where
        stepped :
            (leaves_units (settle_level f).taker ≡ 0) ⊎ ((settle_level f).opposite.levels ≡ rest)
            → LevelDone env s (settle_level f) rest
        stepped over = record { reach = more r.step done; over = over }

        go :
            (os : List Order)
            → f.level.orders ≡ os
            → LevelDone env s (settle_level (fill_level n env f)) rest
        go [] q = rw (fill_level-empty n env f q) (stepped (inr (ground (arith, r.levels))))
        go (m' ∷ os') q = elim r.shrinks [
          | inr filled ↦
              rw
                (fill_level-filled n env f (
                  subst (λ (t : MatchState). leaves_units t.taker ≡ 0)
                    (settle_level-held f m' os' q) filled))
                (stepped (inl filled))
          | inl same ↦ LevelDone-more r.step (
              subst (λ t. LevelDone env (settle_level f) (settle_level (fill_level n env t)) rest)
                (ap (λ t. record { run = t; level = f.level }) (settle_level-held f m' os' q))
                (ih f.level m' os' (ground (arith, r.levels)) q
                  (Step-Ordered kind s (settle_level f) r.step o)
                  (rw (crosses-SameTaker (Step-SameTaker s (settle_level f) r.step), r.price) c)
                  (omega (arith, ap length (sym same ∙ q)))))
        ]

-- Nothing on the side that the order could still trade with.
abbrev pub Blocked : Order → List Level → Type 0
Blocked o [] = Unit {0}
Blocked o (l ∷ ls) = crosses o l.price_ticks ≡ false

pub record MatchDone (env : Env) (s t : MatchState) : Type 0 where
  pub reach : Reach env s t
  pub over : (leaves_units t.taker ≡ 0) ⊎ Blocked t.taker t.opposite.levels

match_level-LevelDone :
    (env : Env) (kind : Side) (s : MatchState) (l : Level) (rest : List Level)
    → s.opposite.levels ≡ l ∷ rest
    → Ordered kind s
    → crosses s.taker l.price_ticks ≡ true
    → LevelDone env s (match_level env s l) rest
unfolding match_level
match_level-LevelDone env kind s l rest e o c = go l.orders refl
  where
    go :
        (os : List Order)
        → l.orders ≡ os
        → LevelDone env s
            (settle_level (fill_level (suc (length l.orders)) env (record { run = s; level = l })))
            rest
    go [] q = absurd ((subst (All HasOrders) e o.nonempty).0 q)
    go (m ∷ os) q =
        fill_level-LevelDone env kind (suc (length l.orders)) s l rest m os e q o c
          (rw q (omega arith))

match_loop-stop :
    (n : ℕ) (env : Env) (s : MatchState) → leaves_units s.taker ≡ 0 → match_loop n env s ≡ s
unfolding match_loop
match_loop-stop zero env s w = refl
match_loop-stop (suc n) env s w = ground arith

match_loop-next :
    (n : ℕ) (env : Env) (s : MatchState) (l : Level) (rest : List Level)
    → s.opposite.levels ≡ l ∷ rest
    → leb (leaves_units s.taker) 0 ≡ false
    → crosses s.taker l.price_ticks ≡ true
    → match_loop (suc n) env s ≡ match_loop n env (match_level env s l)
unfolding match_loop
match_loop-next n env s l rest e w c = ground arith

match_loop-Blocked :
    (n : ℕ) (env : Env) (s : MatchState)
    → Blocked s.taker s.opposite.levels
    → match_loop (suc n) env s ≡ s
unfolding match_loop
match_loop-Blocked n env s b = go s.opposite.levels refl
  where
    go : (ls : List Level) → s.opposite.levels ≡ ls → match_loop (suc n) env s ≡ s
    go [] e = ground arith
    go (l ∷ ls) e =
        let h : crosses s.taker l.price_ticks ≡ false = subst (Blocked s.taker) e b in ground arith

-- The matching loop ends: with more fuel than the opposite side has levels it runs, by steps that each
-- cancel or trade with the order at the head, until the taker is filled or the best level that is left
-- does not cross.
pub match_loop-MatchDone :
    (env : Env) (kind : Side) (n : ℕ) (s : MatchState)
    → Ordered kind s
    → length s.opposite.levels < n
    → MatchDone env s (match_loop n env s)
match_loop-MatchDone env kind zero s o fuel = absurd (omega arith)
match_loop-MatchDone env kind (suc n) s o fuel = elim (Bool-cases (leb (leaves_units s.taker) 0)) [
  | inl filled ↦
      rw (match_loop-stop (suc n) env s (ground arith))
        (record { reach = done; over = inl (ground arith) })
  | inr wants ↦ go s.opposite.levels refl wants (λ t. match_loop-MatchDone env kind n t)
]
  where
    go :
        (ls : List Level)
        → s.opposite.levels ≡ ls
        → leb (leaves_units s.taker) 0 ≡ false
        → ((t : MatchState)
            → Ordered kind t
            → length t.opposite.levels < n
            → MatchDone env t (match_loop n env t))
        → MatchDone env s (match_loop (suc n) env s)
    go [] e w ih =
        rw (match_loop-Blocked n env s (rw e tt)) (record { reach = done; over = inr (rw e tt) })
    go (l ∷ rest) e w ih = elim (Bool-cases (crosses s.taker l.price_ticks)) [
      | inr apart ↦
          rw (match_loop-Blocked n env s (rw e apart))
            (record { reach = done; over = inr (rw e apart) })
      | inl meets ↦
          rw (match_loop-next n env s l rest e w meets)
            (continue (match_level env s l) (match_level-LevelDone env kind s l rest e o meets))
    ]
      where
        continue : (t : MatchState) → LevelDone env s t rest → MatchDone env s (match_loop n env t)
        continue t d = elim d.over [
          | inl filled ↦
              rw (match_loop-stop n env t filled) (record { reach = d.reach; over = inl filled })
          | inr gone ↦
              let m =
                ih t (Reach-keeps (Ordered kind) (Step-Ordered kind) d.reach o)
                  (omega (arith, ap length gone, ap length e)) in
              record { reach = Reach-trans d.reach m.reach; over = m.over }
        ]
