-- ===== src/OrderBook/History.antt =====
-- The tape against its contract: a bounded history of which `Trades` shows the latest, oldest first.
use tiger_swap.Prelude.{
  ℕ, zero, suc, ◌+◌, ◌-◌, ◌%◌, ◌<◌, ◌≤◌, ◌≡◌, ◌≢◌, refl, List, [], ◌∷◌, arith, ap, ◌∙◌, sym, subst,
  inl, inr, Bool-cases, get_or, set, length, length-set, length-replicate, take, ltb, if◌then◌else◌,
}
use Prim.Native.Nat.{min}
use mathlib.Core.List.{reverse, reverse_aux}
use native.Mathlib.Nat.{mod-eq_of_lt, mod-eq-sub-mod}
use tiger_swap.Prelude.Int.{ℤ, pos, negsuc}
use tiger_swap.OrderBook.Types.{Trade}
use tiger_swap.OrderBook.Tape.{
  Tape, blank_trade, new_tape, push_trade, read_trades, clamp_limit, recent_trades,
}

mod-once : (x n : ℕ) → x < n + n → x % n ≡ (if ltb x n then x else x - n)
mod-once x n h = elim (Bool-cases (ltb x n)) [
  | inl small ↦ rw small (mod-eq_of_lt (ground arith))
  | inr large ↦ rw large (mod-eq-sub-mod (ground arith) ∙ mod-eq_of_lt (ground arith))
]

-- Where the `i`-th latest trade stands.
abbrev pub spot : ℕ → ℕ → ℕ → ℕ
spot n start i = if ltb i start then start - suc i else start + n - suc i

reverse_aux-take :
    (k : ℕ) (h acc : List Trade)
    → k < length h
    → reverse_aux (take (suc k) h) acc ≡ get_or h k blank_trade ∷ reverse_aux (take k h) acc
reverse_aux-take k [] acc l = absurd (omega arith)
reverse_aux-take zero (x ∷ xs) acc l = refl
reverse_aux-take (suc k) (x ∷ xs) acc l = reverse_aux-take k xs (x ∷ acc) (omega arith)

get_or-set_self :
    (xs : List Trade) (i : ℕ) (v : Trade) → i < length xs → get_or (set xs i v) i blank_trade ≡ v
get_or-set_self [] i v h = absurd (omega arith)
get_or-set_self (x ∷ xs) zero v h = refl
get_or-set_self (x ∷ xs) (suc i) v h = get_or-set_self xs i v (omega arith)

get_or-set_ne :
    (xs : List Trade) (i j : ℕ) (v : Trade)
    → i ≢ j
    → get_or (set xs i v) j blank_trade ≡ get_or xs j blank_trade
get_or-set_ne [] i j v h = refl
get_or-set_ne (x ∷ xs) zero zero v h = absurd (h refl)
get_or-set_ne (x ∷ xs) zero (suc j) v h = refl
get_or-set_ne (x ∷ xs) (suc i) zero v h = refl
get_or-set_ne (x ∷ xs) (suc i) (suc j) v h = get_or-set_ne xs i j v (λ e. h (ap suc e))

-- The tape holds the latest of the trades `h`, newest first, that its buffer has room for.
pub record Holding (t : Tape) (h : List Trade) : Type 0 where
  pub start_in : t.trade_start < length t.trades
  pub filling : t.trade_count < length t.trades → t.trade_start ≡ t.trade_count
  pub count_eq : t.trade_count ≡ min (length t.trades) (length h)
  pub spots :
      (i : ℕ)
      → i < t.trade_count
      → get_or t.trades (spot (length t.trades) t.trade_start i) blank_trade
        ≡ get_or h i blank_trade

new_tape-Holding : (n : ℕ) → 0 < n → Holding (new_tape n) []
unfolding new_tape
new_tape-Holding n h = record {
  start_in = rw (length-replicate n blank_trade) h;
  filling = λ k. refl;
  count_eq = omega arith;
  spots = λ i l. absurd (omega arith);
}

module _ (t : Tape) (h : List Trade) (x : Trade) (ok : Holding t h) where
  pushed-start :
      (push_trade t x).trade_start
      ≡ (if ltb (t.trade_start + 1) (length t.trades) then t.trade_start + 1 else 0)
  unfolding push_trade
  pushed-start =
      mod-once (t.trade_start + 1) (length t.trades) (omega (arith, ok.start_in))
      ∙ ground (arith, ok.start_in)

  pushed-length : length (push_trade t x).trades ≡ length t.trades
  unfolding push_trade
  pushed-length = length-set t.trades t.trade_start x

  pushed-count : (push_trade t x).trade_count ≡ min (length t.trades) (suc (length h))
  unfolding push_trade
  pushed-count = ground (arith, ok.count_eq)

  pushed-spots :
      (s i : ℕ)
      → s ≡ (if ltb (t.trade_start + 1) (length t.trades) then t.trade_start + 1 else 0)
      → i < min (length t.trades) (suc (length h))
      → get_or (push_trade t x).trades (spot (length t.trades) s i) blank_trade
        ≡ get_or (x ∷ h) i blank_trade
  unfolding push_trade
  pushed-spots s zero e l = rw (spot-latest) (get_or-set_self t.trades t.trade_start x ok.start_in)
    where
      spot-latest : spot (length t.trades) s zero ≡ t.trade_start
      spot-latest = ground (arith, ok.start_in)
  pushed-spots s (suc i) e l = rw (spot-older) (
      get_or-set_ne t.trades t.trade_start _ x (λ q. ground (arith, ok.start_in))
      ∙ ok.spots i (omega (arith, ok.count_eq)))
    where
      spot-older : spot (length t.trades) s (suc i) ≡ spot (length t.trades) t.trade_start i
      spot-older = ground (arith, ok.start_in)

  pushed-filling :
      min (length t.trades) (suc (length h)) < length t.trades
      → (push_trade t x).trade_start ≡ (push_trade t x).trade_count
  pushed-filling f =
      let same = ok.filling (omega (arith, ok.count_eq)) in
      rw (pushed-start, pushed-count) (ground (arith, ok.count_eq))

  pub push_trade-Holding : Holding (push_trade t x) (x ∷ h)
  push_trade-Holding = record {
    start_in = rw (pushed-start, pushed-length) (ground (arith, ok.start_in));
    filling = λ f. pushed-filling (omega (arith, pushed-count, pushed-length));
    count_eq = pushed-count ∙ ap (λ n. min n (suc (length h))) (sym pushed-length);
    spots = λ i l.
        subst
          (λ n.
            get_or (push_trade t x).trades (spot n (push_trade t x).trade_start i) blank_trade
            ≡ get_or (x ∷ h) i blank_trade)
          (sym pushed-length) (pushed-spots _ i pushed-start (omega (arith, pushed-count)));
  }

-- The tape after the trades of the list, newest first, on a new tape of `n` slots.
unfoldable pub recorded : ℕ → List Trade → Tape
recorded n [] = new_tape n
recorded n (x ∷ older) = push_trade (recorded n older) x

recorded-Holding : (n : ℕ) (h : List Trade) → 0 < n → Holding (recorded n h) h
unfolding recorded
recorded-Holding n [] p = new_tape-Holding n p
recorded-Holding n (x ∷ older) p =
    push_trade-Holding (recorded n older) older x (recorded-Holding n older p)

length-recorded : (n : ℕ) (h : List Trade) → length (recorded n h).trades ≡ n
unfolding recorded new_tape push_trade
length-recorded n [] = length-replicate n blank_trade
length-recorded n (x ∷ older) =
    length-set (recorded n older).trades (recorded n older).trade_start x ∙ length-recorded n older

clamp-le : (c : ℕ) (limit : ℤ) → clamp_limit c limit ≤ c
unfolding clamp_limit
clamp-le c (pos n) = ground arith
clamp-le c (negsuc n) = ground arith

module _ (t : Tape) (h : List Trade) (ok : Holding t h) where
  slot-spot :
      (n k i : ℕ)
      → i + suc k ≡ n
      → n ≤ t.trade_count
      → ((t.trade_start + length t.trades - n) % length t.trades + i) % length t.trades
        ≡ spot (length t.trades) t.trade_start k
  slot-spot n k i e l =
      let fits : n ≤ length t.trades = omega (arith, ok.count_eq) in
      let first =
        mod-once (t.trade_start + length t.trades - n) (length t.trades)
          (omega (arith, ok.start_in)) in
      rw first
        (mod-once _ (length t.trades) (ground (arith, ok.start_in)) ∙ ground (arith, ok.start_in))

  -- The loop of `Trades` with `k` rounds left of `n` reads the latest `k` trades.
  read_trades-latest :
      (n k i : ℕ)
      → i + k ≡ n
      → n ≤ t.trade_count
      → read_trades t.trades ((t.trade_start + length t.trades - n) % length t.trades) i k
        ≡ reverse (take k h)
  unfolding read_trades
  read_trades-latest n zero i e l = refl
  read_trades-latest n (suc k) i e l =
      rw
        (
          read_trades-latest n k (i + 1) (omega arith) l,
          slot-spot n k i e l,
          ok.spots k (omega arith),
          reverse_aux-take k h [] (omega (arith, ok.count_eq)),
        )
        refl

-- On a tape of `n` slots, whatever trades were pushed, `Trades(limit)` is the latest of them, oldest
-- first: as many as the limit, or all that are held for a limit that is not positive or too large.
pub recent_trades-latest :
    (n : ℕ) (h : List Trade) (limit : ℤ)
    → 0 < n
    → recent_trades (recorded n h) limit ≡ reverse (take (clamp_limit (min n (length h)) limit) h)
unfolding recent_trades
recent_trades-latest n h limit p =
    let ok = recorded-Holding n h p in
    let size = length-recorded n h in
    read_trades-latest (recorded n h) h ok (clamp_limit (recorded n h).trade_count limit)
      (clamp_limit (recorded n h).trade_count limit) 0 (omega arith) (clamp-le _ limit)
    ∙ ap (λ c. reverse (take (clamp_limit c limit) h))
        (ok.count_eq ∙ ap (λ m. min m (length h)) size)
