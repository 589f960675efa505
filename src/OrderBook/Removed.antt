-- ===== src/OrderBook/Removed.antt =====
-- What taking a resting order out does to its side.
use tiger_swap.Prelude.{
  ℕ, suc, ◌+◌, ◌%◌, ◌≡◌, ◌≢◌, refl, true, false, List, [], ◌∷◌, some, arith, ap, ◌∙◌, length,
}
use tiger_swap.Prelude.Word.{word, sub64, sub64-mod}
use tiger_swap.OrderBook.Types.{Side, Order, leaves_units}
use tiger_swap.OrderBook.Side.{
  Level, SideBook, take_order, remove_order, set_level, erase_level, drop_level, update_key,
}
use tiger_swap.OrderBook.Submit.{find_order, remove_resting}
use tiger_swap.OrderBook.Invariant.{IsResting, units, count_orders, LevelOk, SideOk}
use tiger_swap.OrderBook.Matching.{Prices}
use tiger_swap.OrderBook.Taking.{Holds, Taken, take_order-Taken}
use tiger_swap.OrderBook.Removal.{
  Holds-All, Holds-has_price, set_level-IsSorted, set_level-has_price, set_level-LevelOk,
  set_level-count, set_level-Prices, erase-set, erase_level-IsSorted, erase_level-has_price,
  erase_level-LevelOk, erase_level-count, erase_level-Prices,
}

-- The level without an order of it.
abbrev shrunk : Level → Order → List Order → Level
shrunk l o rest = record l { orders = rest; total_units = sub64 l.total_units (leaves_units o) }

-- What taking an order out does to a side.
pub record Removed (kind : Side) (s t : SideBook) : Type 1 where
  pub side_ok : SideOk kind t
  pub count_eq : suc (count_orders t.levels) ≡ count_orders s.levels
  pub prices : (Q : ℕ → Type 0) → Prices Q s.levels → Prices Q t.levels

module _ (kind : Side) (s : SideBook) (l : Level) (o : Order) (ok : SideOk kind s)
    (h : Holds s.levels l) where
  -- The level goes when the order was its last.
  emptied-Removed :
      suc 0 ≡ length l.orders
      → Removed kind s (record s {
        levels = erase_level l.price_ticks s.levels;
        index = update_key s.index l.price_ticks false;
      })
  emptied-Removed n = record {
    side_ok = record {
      kind_eq = ok.kind_eq;
      sorted = erase_level-IsSorted kind l.price_ticks s.levels ok.sorted;
      indexed = λ q.
          rw (erase_level-has_price kind l.price_ticks q s.levels ok.sorted, ok.indexed q) refl;
      levels_ok = erase_level-LevelOk kind l.price_ticks s.levels ok.levels_ok;
    };
    count_eq = omega (arith, erase_level-count kind l.price_ticks s.levels l ok.sorted h refl);
    prices = λ Q a. erase_level-Prices kind l.price_ticks Q s.levels a;
  }

  kept-Removed :
      (l' : Level)
      → l'.price_ticks ≡ l.price_ticks
      → LevelOk kind l'
      → suc (length l'.orders) ≡ length l.orders
      → Removed kind s (record s { levels = set_level l' s.levels })
  kept-Removed l' p ok' n = record {
    side_ok = record {
      kind_eq = ok.kind_eq;
      sorted = set_level-IsSorted kind l' s.levels ok.sorted;
      indexed = λ q. rw (set_level-has_price kind l' q s.levels, ok.indexed q) refl;
      levels_ok = set_level-LevelOk kind l' s.levels ok' ok.levels_ok;
    };
    count_eq = omega (arith, set_level-count kind l' s.levels l ok.sorted h p);
    prices = λ Q a. set_level-Prices Q l' s.levels a;
  }

  shrunk-LevelOk :
      (id : ℕ) (rest : List Order)
      → Taken id l.orders o rest
      → rest ≢ []
      → LevelOk kind (shrunk l o rest)
  shrunk-LevelOk id rest t ne =
      let lok = Holds-All (LevelOk kind) s.levels l h ok.levels_ok in
      record {
        nonempty = ne;
        resting = t.still (IsResting kind l.price_ticks) lok.resting;
        total =
            rw (lok.total, ← t.units_eq)
              (sub64-mod (leaves_units o + units rest) (leaves_units o) (omega arith)
                ∙ ap (λ n. n % word) (omega arith));
      }

  took-remove_order :
      (id : ℕ) (rest : List Order)
      → take_order id l.orders ≡ some (o, rest)
      → remove_order l id ≡ (shrunk l o rest, true)
  unfolding remove_order
  took-remove_order id rest e = rw (e, remove_order) refl

  removed_last :
      (id : ℕ)
      → take_order id l.orders ≡ some (o, [])
      → remove_resting s l id
        ≡ drop_level (record s { levels = set_level (shrunk l o []) s.levels }) l.price_ticks
  unfolding remove_resting
  removed_last id e = simp (remove_resting, took-remove_order id [] e)

  removed_other :
      (id : ℕ) (x : Order) (xs : List Order)
      → take_order id l.orders ≡ some (o, x ∷ xs)
      → remove_resting s l id ≡ record s { levels = set_level (shrunk l o (x ∷ xs)) s.levels }
  unfolding remove_resting
  removed_other id x xs e = simp (remove_resting, took-remove_order id (x ∷ xs) e)

  dropped :
      drop_level (record s { levels = set_level (shrunk l o []) s.levels }) l.price_ticks
      ≡ record s {
        levels = erase_level l.price_ticks s.levels;
        index = update_key s.index l.price_ticks false;
      }
  unfolding drop_level
  dropped =
      rw
        (
          ok.indexed l.price_ticks,
          Holds-has_price s.levels l h,
          erase-set kind (shrunk l o []) s.levels,
        )
        refl

  pub remove_resting-Removed :
      (id : ℕ) → find_order id l.orders ≡ some o → Removed kind s (remove_resting s l id)
  remove_resting-Removed id e = let (rest, t) = take_order-Taken id l.orders o e in go rest t
    where
      go : (rest : List Order) → Taken id l.orders o rest → Removed kind s (remove_resting s l id)
      go [] t = rw (removed_last id t.took, dropped) (emptied-Removed t.length_eq)
      go (x ∷ xs) t = rw (removed_other id x xs t.took) (
          kept-Removed (shrunk l o (x ∷ xs)) refl (shrunk-LevelOk id (x ∷ xs) t (λ e. cc))
            t.length_eq)
