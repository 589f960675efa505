-- ===== src/OrderBook/Runs.antt =====
-- Sequences of steps, and what no step changes: the order of the levels and the taker's terms.
use tiger_swap.Prelude.{ℕ, ◌≡◌, ◌≢◌, refl, List, [], ◌∷◌, arith, All, subst}
use tiger_swap.OrderBook.Types.{Side, Env}
use tiger_swap.OrderBook.Side.{Level}
use tiger_swap.OrderBook.Book.{crosses}
use tiger_swap.OrderBook.Match.{MatchState}
use tiger_swap.OrderBook.Invariant.{IsSorted, Indexed}
use tiger_swap.OrderBook.Step.{put, put-elim, IsReplaced, Step, cancels, fills, part}

pub data Reach (env : Env) : MatchState → MatchState → Type 0 where
  done : {s : MatchState} → Reach env s s
  more : {s t u : MatchState} → Step env s t → Reach env t u → Reach env s u

pub Reach-trans : {env : Env} {s t u : MatchState} → Reach env s t → Reach env t u → Reach env s u
Reach-trans done r = r
Reach-trans (more st q) r = more st (Reach-trans q r)

-- A property that every step keeps holds at the end of every run.
pub Reach-keeps {ℓ} :
    {env : Env} (P : MatchState → Type ℓ)
    → ((s t : MatchState) → Step env s t → P s → P t)
    → {s t : MatchState} → Reach env s t
    → P s
    → P t
Reach-keeps P keep done p = p
Reach-keeps P keep (more {s} {t} st r) p = Reach-keeps P keep r (keep s t st p)

-- What a step leaves of the incoming order's terms.
pub record SameTaker (s t : MatchState) : Type 0 where
  pub trader : t.taker.trader ≡ s.taker.trader
  pub side : t.taker.side ≡ s.taker.side
  pub order_type : t.taker.order_type ≡ s.taker.order_type
  pub tif : t.taker.tif ≡ s.taker.tif
  pub price_ticks : t.taker.price_ticks ≡ s.taker.price_ticks
  pub qty_units : t.taker.qty_units ≡ s.taker.qty_units
  pub order_id : t.taker.order_id ≡ s.taker.order_id
  pub status : t.taker.status ≡ s.taker.status

pub SameTaker-refl : (s : MatchState) → SameTaker s s
SameTaker-refl s = record {
  trader = refl;
  side = refl;
  order_type = refl;
  tif = refl;
  price_ticks = refl;
  qty_units = refl;
  order_id = refl;
  status = refl;
}

pub Step-SameTaker : {env : Env} (s t : MatchState) → Step env s t → SameTaker s t
Step-SameTaker s t (cancels l rest m os h w fr tk tr tp op n) = ground arith
Step-SameTaker s t (fills l rest m os h a b fr tr op n) = ground arith
Step-SameTaker s t (part l rest m m' os h a fr tr st op n) = ground arith

pub crosses-SameTaker :
    {s t : MatchState} → SameTaker s t → (p : ℕ) → crosses t.taker p ≡ crosses s.taker p
unfolding crosses
crosses-SameTaker e p = ground arith

abbrev pub HasOrders : Level → Type 0
HasOrders l = l.orders ≢ []

-- The opposite side is sorted, with its index in step and no empty level.
pub record Ordered (kind : Side) (s : MatchState) : Type 0 where
  pub nonempty : All HasOrders s.opposite.levels
  pub sorted : IsSorted kind s.opposite.levels
  pub indexed : Indexed s.opposite

put-IsSorted :
    (kind : Side) (l l' : Level) (rest : List Level)
    → l'.price_ticks ≡ l.price_ticks
    → IsSorted kind (l ∷ rest)
    → IsSorted kind (put l' rest)
put-IsSorted kind l l' rest e h = put-elim (IsSorted kind) l' rest (λ _. h.1) (λ _. (rw e h.0, h.1))

put-HasOrders : (l' : Level) (rest : List Level) → All HasOrders rest → All HasOrders (put l' rest)
put-HasOrders l' rest h = put-elim (All HasOrders) l' rest (λ _. h) (λ ne. (ne, h))

IsReplaced-Ordered :
    (kind : Side) (s t : MatchState) (l l' : Level) (rest : List Level)
    → s.opposite.levels ≡ l ∷ rest
    → l'.price_ticks ≡ l.price_ticks
    → IsReplaced s.opposite t.opposite l' rest
    → Ordered kind s
    → Ordered kind t
IsReplaced-Ordered kind s t l l' rest e p r h = record {
  nonempty = rw r.levels (put-HasOrders l' rest (subst (All HasOrders) e h.nonempty).1);
  sorted = rw r.levels (put-IsSorted kind l l' rest p (subst (IsSorted kind) e h.sorted));
  indexed = r.indexed;
}

pub Step-Ordered :
    {env : Env} (kind : Side) (s t : MatchState) → Step env s t → Ordered kind s → Ordered kind t
Step-Ordered kind s t (cancels l rest m os h w fr tk tr tp op n) o =
    IsReplaced-Ordered kind s t l _ rest h.levels refl op o
Step-Ordered kind s t (fills l rest m os h a b fr tr op n) o =
    IsReplaced-Ordered kind s t l _ rest h.levels refl op o
Step-Ordered kind s t (part l rest m m' os h a fr tr st op n) o =
    IsReplaced-Ordered kind s t l _ rest h.levels refl op o
