-- ===== src/OrderBook/Removal.antt =====
-- A side keeps its order, its index and its levels' validity when a level is replaced or erased.
use tiger_swap.Prelude.{
  ℕ, ◌+◌, ◌≡◌, refl, inl, inr, true, false, List, [], ◌∷◌, arith, All, ap, subst, if◌then◌else◌,
  Bool-cases, ◌==◌, length,
}
use tiger_swap.OrderBook.Types.{Side}
use tiger_swap.OrderBook.Side.{Level, better, set_level, erase_level}
use tiger_swap.OrderBook.Invariant.{
  count_orders, LevelOk, Before, IsSorted, has_price, has_price-Before,
}
use tiger_swap.OrderBook.Taking.{Holds}

module _ (kind : Side) where
  Before-Holds :
      (q : ℕ) (ls : List Level) (l : Level)
      → Before kind q ls
      → Holds ls l
      → (l.price_ticks == q) ≡ false
  unfolding better
  Before-Holds q [] l b h = elim h [ ]
  Before-Holds q (m ∷ ms) l b (inl e) =
      let p = ap (λ (k : Level). k.price_ticks) e in ground (arith, b.0)
  Before-Holds q (m ∷ ms) l b (inr h) = Before-Holds q ms l b.1 h

  -- On a sorted side the level of a price is the only one of that price.
  Holds-cases {κ} :
      (P : List Level → Type κ) (m : Level) (ms : List Level) (l : Level)
      → IsSorted kind (m ∷ ms)
      → Holds (m ∷ ms) l
      → (m ≡ l → P (m ∷ ms))
      → ((m.price_ticks == l.price_ticks) ≡ false → Holds ms l → P (m ∷ ms))
      → P (m ∷ ms)
  Holds-cases P m ms l s (inl e) here there = here e
  Holds-cases P m ms l s (inr h) here there =
      there (let ne = Before-Holds m.price_ticks ms l s.0 h in ground arith) h

  module _ (l' : Level) where
    set_level-Before :
        (q : ℕ) (ls : List Level) → Before kind q ls → Before kind q (set_level l' ls)
    unfolding set_level better
    set_level-Before q [] b = tt
    set_level-Before q (m ∷ ms) b = elim (Bool-cases (m.price_ticks == l'.price_ticks)) [
      | inl hit ↦ rw hit ((ground (arith, b.0)), b.1)
      | inr miss ↦ rw miss (b.0, set_level-Before q ms b.1)
    ]

    pub set_level-IsSorted : (ls : List Level) → IsSorted kind ls → IsSorted kind (set_level l' ls)
    unfolding set_level
    set_level-IsSorted [] s = tt
    set_level-IsSorted (m ∷ ms) s = elim (Bool-cases (m.price_ticks == l'.price_ticks)) [
      | inl hit ↦ rw hit (subst (λ p. Before kind p ms) (ground arith) s.0, s.1)
      | inr miss ↦ rw miss (set_level-Before m.price_ticks ms s.0, set_level-IsSorted ms s.1)
    ]

    pub set_level-has_price :
        (q : ℕ) (ls : List Level) → has_price q (set_level l' ls) ≡ has_price q ls
    unfolding set_level has_price
    set_level-has_price q [] = refl
    set_level-has_price q (m ∷ ms) = ground (arith, set_level-has_price q ms)

    pub set_level-LevelOk :
        (ls : List Level)
        → LevelOk kind l'
        → All (LevelOk kind) ls
        → All (LevelOk kind) (set_level l' ls)
    unfolding set_level
    set_level-LevelOk [] ok h = tt
    set_level-LevelOk (m ∷ ms) ok h = elim (Bool-cases (m.price_ticks == l'.price_ticks)) [
      | inl hit ↦ rw hit (ok, h.1)
      | inr miss ↦ rw miss (h.0, set_level-LevelOk ms ok h.1)
    ]

    pub erase-set :
        (ls : List Level)
        → erase_level l'.price_ticks (set_level l' ls) ≡ erase_level l'.price_ticks ls
    unfolding set_level erase_level
    erase-set [] = refl
    erase-set (m ∷ ms) = ground (arith, erase-set ms)

    pub set_level-count :
        (ls : List Level) (l : Level)
        → IsSorted kind ls
        → Holds ls l
        → l'.price_ticks ≡ l.price_ticks
        → count_orders (set_level l' ls) + length l.orders ≡ count_orders ls + length l'.orders
    unfolding set_level count_orders
    set_level-count [] l s h e = elim h [ ]
    set_level-count (m ∷ ms) l s h e =
        Holds-cases
          (λ ls.
            count_orders (set_level l' ls) + length l.orders ≡ count_orders ls + length l'.orders)
          m ms l s h
          (λ same.
            let hit : (m.price_ticks == l'.price_ticks) ≡ true =
              (let p = ap (λ (k : Level). k.price_ticks) same in ground arith) in
            rw hit (let n = ap (λ (k : Level). length k.orders) same in omega arith))
          (λ ne below.
            let miss : (m.price_ticks == l'.price_ticks) ≡ false = ground arith in
            rw miss (omega (arith, set_level-count ms l s.1 below e)))

  module _ (p : ℕ) where
    erase_level-Before :
        (q : ℕ) (ls : List Level) → Before kind q ls → Before kind q (erase_level p ls)
    unfolding erase_level
    erase_level-Before q [] b = tt
    erase_level-Before q (m ∷ ms) b = elim (Bool-cases (m.price_ticks == p)) [
      | inl hit ↦ rw hit b.1
      | inr miss ↦ rw miss (b.0, erase_level-Before q ms b.1)
    ]

    pub erase_level-IsSorted :
        (ls : List Level) → IsSorted kind ls → IsSorted kind (erase_level p ls)
    unfolding erase_level
    erase_level-IsSorted [] s = tt
    erase_level-IsSorted (m ∷ ms) s = elim (Bool-cases (m.price_ticks == p)) [
      | inl hit ↦ rw hit s.1
      | inr miss ↦ rw miss (erase_level-Before m.price_ticks ms s.0, erase_level-IsSorted ms s.1)
    ]

    pub erase_level-has_price :
        (q : ℕ) (ls : List Level)
        → IsSorted kind ls
        → has_price q (erase_level p ls) ≡ (if q == p then false else has_price q ls)
    unfolding erase_level has_price
    erase_level-has_price q [] s = ground arith
    erase_level-has_price q (m ∷ ms) s =
        ground (arith, erase_level-has_price q ms s.1, has_price-Before kind m.price_ticks ms s.0)

    pub erase_level-LevelOk :
        (ls : List Level) → All (LevelOk kind) ls → All (LevelOk kind) (erase_level p ls)
    unfolding erase_level
    erase_level-LevelOk [] h = tt
    erase_level-LevelOk (m ∷ ms) h = elim (Bool-cases (m.price_ticks == p)) [
      | inl hit ↦ rw hit h.1
      | inr miss ↦ rw miss (h.0, erase_level-LevelOk ms h.1)
    ]

    pub erase_level-count :
        (ls : List Level) (l : Level)
        → IsSorted kind ls
        → Holds ls l
        → p ≡ l.price_ticks
        → count_orders (erase_level p ls) + length l.orders ≡ count_orders ls
    unfolding erase_level count_orders
    erase_level-count [] l s h e = elim h [ ]
    erase_level-count (m ∷ ms) l s h e =
        Holds-cases (λ ls. count_orders (erase_level p ls) + length l.orders ≡ count_orders ls) m ms
          l s h
          (λ same.
            let hit : (m.price_ticks == p) ≡ true =
              (let q = ap (λ (k : Level). k.price_ticks) same in ground arith) in
            rw hit (let n = ap (λ (k : Level). length k.orders) same in omega arith))
          (λ ne below.
            let miss : (m.price_ticks == p) ≡ false = ground arith in
            rw miss (omega (arith, erase_level-count ms l s.1 below e)))

    pub erase_level-Prices {κ} :
        (Q : ℕ → Type κ) (ls : List Level)
        → All (λ (k : Level). Q k.price_ticks) ls
        → All (λ (k : Level). Q k.price_ticks) (erase_level p ls)
    unfolding erase_level
    erase_level-Prices Q [] h = tt
    erase_level-Prices Q (m ∷ ms) h = elim (Bool-cases (m.price_ticks == p)) [
      | inl hit ↦ rw hit h.1
      | inr miss ↦ rw miss (h.0, erase_level-Prices Q ms h.1)
    ]

pub set_level-Prices {κ} :
    (Q : ℕ → Type κ) (l' : Level) (ls : List Level)
    → All (λ (k : Level). Q k.price_ticks) ls
    → All (λ (k : Level). Q k.price_ticks) (set_level l' ls)
unfolding set_level
set_level-Prices Q l' [] h = tt
set_level-Prices Q l' (m ∷ ms) h = elim (Bool-cases (m.price_ticks == l'.price_ticks)) [
  | inl hit ↦ rw hit (subst Q (ground arith) h.0, h.1)
  | inr miss ↦ rw miss (h.0, set_level-Prices Q l' ms h.1)
]

pub Holds-All {κ} : (P : Level → Type κ) (ls : List Level) (l : Level) → Holds ls l → All P ls → P l
Holds-All P [] l h a = elim h [ ]
Holds-All P (m ∷ ms) l (inl e) a = subst P e a.0
Holds-All P (m ∷ ms) l (inr h) a = Holds-All P ms l h a.1

pub Holds-has_price : (ls : List Level) (l : Level) → Holds ls l → has_price l.price_ticks ls ≡ true
unfolding has_price
Holds-has_price [] l h = elim h [ ]
Holds-has_price (m ∷ ms) l (inl e) = let p = ap (λ (k : Level). k.price_ticks) e in ground arith
Holds-has_price (m ∷ ms) l (inr h) = ground (arith, Holds-has_price ms l h)
