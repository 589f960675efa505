-- ===== src/OrderBook/Side.antt =====
-- level, sideBook and their methods. A *level is shared by `levels` and `index`; it is known by its
-- price, which no two levels of a side share, so a write through the pointer is `set_level`.
use tiger_swap.Prelude.{
  ℕ, zero, suc, ◌+◌, ◌/◌, Bool, true, false, List, [], ◌∷◌, ◌++◌, Option, none, some, length,
  get_elem?, ltb, ◌==◌, if◌then◌else◌,
}
use tiger_swap.Prelude.Word.{add64, sub64}
use tiger_swap.OrderBook.Types.{Side, Order, leaves_units, is_buy}

pub record Level : Type 0 where
  pub price_ticks : ℕ
  pub orders : List Order
  pub total_units : ℕ

unfoldable pub add_order : Level → Order → Level
add_order l o = record l {
  orders = l.orders ++ (o ∷ []);
  total_units = add64 l.total_units (leaves_units o);
}

-- The first order with the id, and the others.
unfoldable pub take_order : ℕ → List Order → Option (Order × List Order)
take_order id [] = none
take_order id (o ∷ os) =
    if o.order_id == id
    then some (o, os)
    else elim (take_order id os) [ none ↦ none | some (found, rest) ↦ some (found, o ∷ rest) ]

unfoldable pub remove_order : Level → ℕ → Level × Bool
remove_order l id = elim (take_order id l.orders) [
  | none ↦ (l, false)
  | some (o, rest) ↦
      (record l { orders = rest; total_units = sub64 l.total_units (leaves_units o) }, true)
]

-- `index` tells which keys the map holds; the level under a key is the one at that price.
pub record SideBook : Type 0 where
  pub side : Side
  pub levels : List Level
  pub index : ℕ → Bool

unfoldable pub new_side_book : Side → SideBook
new_side_book s = record { side = s; levels = []; index = λ p. false }

unfoldable pub better : Side → ℕ → ℕ → Bool
unfolding is_buy
better s a b = if is_buy s then ltb b a else ltb a b

abbrev pub update_key : (ℕ → Bool) → ℕ → Bool → ℕ → Bool
update_key f p v q = if q == p then v else f q

unfoldable pub set_level : Level → List Level → List Level
set_level l [] = []
set_level l (m ∷ ms) = if m.price_ticks == l.price_ticks then l ∷ ms else m ∷ set_level l ms

unfoldable pub erase_level : ℕ → List Level → List Level
erase_level p [] = []
erase_level p (m ∷ ms) = if m.price_ticks == p then ms else m ∷ erase_level p ms

unfoldable pub find_level : ℕ → List Level → Option Level
find_level p [] = none
find_level p (m ∷ ms) = if m.price_ticks == p then some m else find_level p ms

-- `better(levels[mid], price)`; the loop reads only inside the slice.
unfoldable pub better_at : Side → List Level → ℕ → ℕ → Bool
better_at s levels mid p = elim (get_elem? levels mid) [
  | none ↦ false
  | some l ↦ better s l.price_ticks p
]

-- The binary search of `insertLevel`: each round at least halves `hi - lo`.
unfoldable pub search_level : ℕ → Side → List Level → ℕ → ℕ → ℕ → ℕ
search_level zero s levels p lo hi = lo
search_level (suc fuel) s levels p lo hi =
    let mid = (lo + hi) / 2 in
    let upper = search_level fuel s levels p (mid + 1) hi in
    let lower = search_level fuel s levels p lo mid in
    if ltb lo hi then if better_at s levels mid p then upper else lower else lo

-- The slice grown by one, its tail shifted, and the level written at `i`.
unfoldable pub insert_at : ℕ → Level → List Level → List Level
insert_at zero l ms = l ∷ ms
insert_at (suc i) l [] = l ∷ []
insert_at (suc i) l (m ∷ ms) = m ∷ insert_at i l ms

abbrev pub new_level : ℕ → Level
new_level p = record { price_ticks = p; orders = []; total_units = 0 }

unfoldable pub insert_level : SideBook → ℕ → SideBook
insert_level s p = if s.index p then s else record s {
  levels =
      insert_at (search_level (suc (length s.levels)) s.side s.levels p 0 (length s.levels))
        (new_level p) s.levels;
  index = update_key s.index p true;
}

-- `insertLevel(price).add(o)`: the level of that price is found or made, and `o` joins it last.
unfoldable pub add_to : SideBook → Option Level → Order → SideBook
add_to s none o = s
add_to s (some l) o = record s { levels = set_level (add_order l o) s.levels }

unfoldable pub rest_order : SideBook → ℕ → Order → SideBook
unfolding add_to
rest_order s p o = let s' = insert_level s p in add_to s' (find_level p s'.levels) o

unfoldable pub drop_level : SideBook → ℕ → SideBook
drop_level s p =
    if s.index p
    then record s { levels = erase_level p s.levels; index = update_key s.index p false }
    else s

unfoldable pub best : SideBook → Option Level
best s = elim s.levels [ [] ↦ none | l ∷ ls ↦ some l ]
