-- ===== src/OrderBook/Invariant.antt =====
-- The representation invariant of a side: levels sorted strictly best first, none of them empty, the
-- index in step with them, and each total the wrapped sum of what its orders have left.
use tiger_swap.Prelude.{
  ℕ, ◌+◌, ◌%◌, ◌<◌, ◌≡◌, ◌≢◌, Bool, true, false, List, [], ◌∷◌, All, length, arith, ◌==◌, ◌||◌,
}
use tiger_swap.Prelude.Word.{word, half_word}
use tiger_swap.OrderBook.Types.{Side, Order, leaves_units}
use tiger_swap.OrderBook.Side.{Level, SideBook, better}

-- An order that rests at price `p`.
pub record IsResting (kind : Side) (p : ℕ) (o : Order) : Type 0 where
  pub side : o.side ≡ kind
  pub at_price : o.price_ticks ≡ p
  pub live : o.filled_units < o.qty_units
  pub small : o.qty_units < half_word

-- What the orders have left, as an exact sum.
unfoldable pub units : List Order → ℕ
units [] = 0
units (o ∷ os) = leaves_units o + units os

unfoldable pub side_units : List Level → ℕ
side_units [] = 0
side_units (l ∷ ls) = units l.orders + side_units ls

unfoldable pub count_orders : List Level → ℕ
count_orders [] = 0
count_orders (l ∷ ls) = length l.orders + count_orders ls

pub record LevelOk (kind : Side) (l : Level) : Type 0 where
  pub nonempty : l.orders ≢ []
  pub resting : All (IsResting kind l.price_ticks) l.orders
  pub total : l.total_units ≡ units l.orders % word

unfoldable pub has_price : ℕ → List Level → Bool
has_price q [] = false
has_price q (l ∷ ls) = (q == l.price_ticks) || has_price q ls

-- Price `p` is strictly better than every level of the list.
abbrev pub Before : Side → ℕ → List Level → Type 0
Before kind p [] = Unit {0}
Before kind p (l ∷ ls) = (better kind p l.price_ticks ≡ true) × Before kind p ls

abbrev pub IsSorted : Side → List Level → Type 0
IsSorted kind [] = Unit {0}
IsSorted kind (l ∷ ls) = Before kind l.price_ticks ls × IsSorted kind ls

abbrev pub Indexed : SideBook → Type 0
Indexed s = (q : ℕ) → s.index q ≡ has_price q s.levels

pub record SideOk (kind : Side) (s : SideBook) : Type 0 where
  pub kind_eq : s.side ≡ kind
  pub sorted : IsSorted kind s.levels
  pub indexed : Indexed s
  pub levels_ok : All (LevelOk kind) s.levels

-- A price that stands before a list is none of its prices.
pub has_price-Before :
    (kind : Side) (p : ℕ) (ls : List Level) → Before kind p ls → has_price p ls ≡ false
unfolding has_price better
has_price-Before kind p [] h = ground arith
has_price-Before kind p (l ∷ ls) h = ground (arith, has_price-Before kind p ls h.1)
