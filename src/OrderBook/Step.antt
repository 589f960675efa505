-- ===== src/OrderBook/Step.antt =====
-- One round of the matching loops as a relation: the oldest order of the best level is cancelled, or
-- it trades. `fill_step` of OrderBook.Match makes such a step.
use tiger_swap.Prelude.{
  ◌≢◌, ℕ, ◌+◌, ◌-◌, ◌<◌, ◌≤◌, ◌≡◌, refl, ◌⊎◌, Bool, true, false, List, [], ◌∷◌, ◌++◌, arith, some,
}
use text.Mathlib.Text.{◌==◌ as str_eq}
use tiger_swap.Prelude.Word.{sub64}
use tiger_swap.OrderBook.Types.{Side, Order, Env, leaves_units}
use tiger_swap.OrderBook.Side.{
  Level, SideBook, take_order, remove_order, set_level, erase_level, drop_level,
}
use tiger_swap.OrderBook.Tape.{push_trade}
use tiger_swap.OrderBook.Book.{Book, sync_public, crosses}
use tiger_swap.OrderBook.Match.{MatchState, new_trade, settle_maker}
use tiger_swap.OrderBook.Invariant.{Before, Indexed, has_price, has_price-Before}

-- A level goes back to the front of its side unless it is empty.
abbrev pub put : Level → List Level → List Level
put l rest = elim l.orders [ [] ↦ rest | _ ∷ _ ↦ l ∷ rest ]

pub put-elim {ℓ} :
    (P : List Level → Type ℓ) (l : Level) (rest : List Level)
    → (l.orders ≡ [] → P rest)
    → (l.orders ≢ [] → P (l ∷ rest))
    → P (put l rest)
put-elim P l rest gone kept = go l.orders refl
  where
    go : (os : List Order) → l.orders ≡ os → P (elim os [ [] ↦ rest | _ ∷ _ ↦ l ∷ rest ])
    go [] q = gone q
    go (o ∷ os) q = kept (λ e. cc)

pub take_order-head : (m : Order) (ms : List Order) → take_order m.order_id (m ∷ ms) ≡ some (m, ms)
unfolding take_order
take_order-head m ms = ground arith

-- The head level without its oldest order.
abbrev pub shorter : Level → Order → List Order → Level
shorter l maker others = record l {
  orders = others;
  total_units = sub64 l.total_units (leaves_units maker);
}

pub remove_order-head :
    (l : Level) (maker : Order) (others : List Order)
    → l.orders ≡ maker ∷ others
    → (remove_order l maker.order_id).0 ≡ shorter l maker others
unfolding remove_order
remove_order-head l maker others e = ground (arith, take_order-head maker others)

-- Dropping the head level leaves the rest of the side, and an index in step with it.
pub drop_level-head :
    (s : SideBook) (l : Level) (rest : List Level)
    → s.levels ≡ l ∷ rest
    → s.index l.price_ticks ≡ true
    → (drop_level s l.price_ticks).levels ≡ rest
unfolding drop_level erase_level
drop_level-head s l rest e h = ground arith

-- The side after a write to its head level, which goes if it became empty.
abbrev pub replaced : SideBook → Level → SideBook
replaced s l' =
    let s' = record s { levels = set_level l' s.levels } in
    elim l'.orders [ [] ↦ drop_level s' l'.price_ticks | _ ∷ _ ↦ s' ]

pub record IsReplaced (s t : SideBook) (l' : Level) (rest : List Level) : Type 0 where
  pub side : t.side ≡ s.side
  pub levels : t.levels ≡ put l' rest
  pub indexed : Indexed t

module _ (kind : Side) (s : SideBook) (l l' : Level) (rest : List Level) (e : s.levels ≡ l ∷ rest)
    (p : l'.price_ticks ≡ l.price_ticks) (ix : Indexed s) (b : Before kind l.price_ticks rest) where
  index-head : s.index l.price_ticks ≡ true
  unfolding has_price
  index-head = ground (arith, ix l.price_ticks)

  replaced-index : (q : ℕ) → (replaced s l').index q ≡ has_price q (replaced s l').levels
  unfolding has_price set_level drop_level erase_level
  replaced-index q =
      ground (arith, ix q, ix l.price_ticks, has_price-Before kind l.price_ticks rest b)

  pub replaced-IsReplaced : IsReplaced s (replaced s l') l' rest
  unfolding set_level drop_level erase_level
  replaced-IsReplaced = record {
    side = ground arith;
    levels = ground (arith, index-head);
    indexed = replaced-index;
  }

  -- Dropping the level once more changes nothing: its key has left the index.
  pub drop-replaced : l'.orders ≡ [] → drop_level (replaced s l') l'.price_ticks ≡ replaced s l'
  unfolding set_level drop_level
  drop-replaced h = ground (arith, index-head)

-- The loops go on: there is a best level with an oldest order, something is left, and it crosses.
pub record Head (s : MatchState) (l : Level) (rest : List Level) (maker : Order)
    (others : List Order) : Type 0 where
  pub levels : s.opposite.levels ≡ l ∷ rest
  pub orders : l.orders ≡ maker ∷ others
  pub wants : 0 < leaves_units s.taker
  pub crossing : crosses s.taker l.price_ticks ≡ true

-- What no round touches.
pub record Frame (s t : MatchState) : Type 0 where
  pub cfg : t.book.cfg ≡ s.book.cfg
  pub bids : t.book.bids ≡ s.book.bids
  pub asks : t.book.asks ≡ s.book.asks
  pub last_price : t.book.last_price_tk ≡ s.book.last_price_tk

abbrev pub own : Order → Order → Bool
own maker taker = str_eq maker.trader taker.trader

abbrev pub add_filled : Order → ℕ → Order
add_filled o qty = record o { filled_units = o.filled_units + qty }

-- The level after its oldest order traded `qty` and `others` are left at it.
abbrev pub traded : Level → List Order → ℕ → Level
traded l orders qty = record l { orders = orders; total_units = sub64 l.total_units qty }

-- The maker that stays keeps its terms.
pub record SameTerms (m m' : Order) : Type 0 where
  pub order_id : m'.order_id ≡ m.order_id
  pub trader : m'.trader ≡ m.trader
  pub side : m'.side ≡ m.side
  pub price_ticks : m'.price_ticks ≡ m.price_ticks
  pub qty_units : m'.qty_units ≡ m.qty_units
  pub filled_units : m'.filled_units ≡ m.filled_units

-- A trade of `qty` between the two at the level's price, recorded on the tape as well.
pub record Trades (env : Env) (s t : MatchState) (l : Level) (maker : Order) (qty : ℕ)
    : Type 0 where
  pub stranger : own maker s.taker ≡ false
  pub taker : t.taker ≡ add_filled s.taker qty
  pub trades :
      t.trades
      ≡ s.trades
        ++ (new_trade env s.book (add_filled maker qty) (add_filled s.taker qty) l.price_ticks qty
            ∷ [])
  pub tape :
      t.book.tape
      ≡ push_trade s.book.tape
          (new_trade env s.book (add_filled maker qty) (add_filled s.taker qty) l.price_ticks qty)

pub data Step (env : Env) (s t : MatchState) : Type 0 where
  -- A maker of the same trader, or with nothing left, is cancelled.
  cancels :
      (l : Level) (rest : List Level) (maker : Order) (others : List Order)
      → Head s l rest maker others
      → (own maker s.taker ≡ true) ⊎ (leaves_units maker ≡ 0)
      → Frame s t
      → t.taker ≡ s.taker
      → t.trades ≡ s.trades
      → t.book.tape ≡ s.book.tape
      → IsReplaced s.opposite t.opposite (shorter l maker others) rest
      → t.book.open_orders ≡ s.book.open_orders - 1
      → Step env s t
  -- The maker is filled and leaves the book.
  fills :
      (l : Level) (rest : List Level) (maker : Order) (others : List Order)
      → Head s l rest maker others
      → 0 < leaves_units maker
      → leaves_units maker ≤ leaves_units s.taker
      → Frame s t
      → Trades env s t l maker (leaves_units maker)
      → IsReplaced s.opposite t.opposite (traded l others (leaves_units maker)) rest
      → t.book.open_orders ≡ s.book.open_orders - 1
      → Step env s t
  -- The taker is filled, and the maker stays with what it has left.
  part :
      (l : Level) (rest : List Level) (maker settled : Order) (others : List Order)
      → Head s l rest maker others
      → leaves_units s.taker < leaves_units maker
      → Frame s t
      → Trades env s t l maker (leaves_units s.taker)
      → SameTerms (add_filled maker (leaves_units s.taker)) settled
      → IsReplaced s.opposite t.opposite (traded l (settled ∷ others) (leaves_units s.taker)) rest
      → t.book.open_orders ≡ s.book.open_orders
      → Step env s t

pub settle_maker-SameTerms :
    (env : Env) (b : Book) (m : Order) (time : ℕ) → SameTerms m (settle_maker env b m time)
unfolding settle_maker sync_public
settle_maker-SameTerms env b m time = record {
  order_id = refl;
  trader = refl;
  side = refl;
  price_ticks = refl;
  qty_units = refl;
  filled_units = refl;
}
