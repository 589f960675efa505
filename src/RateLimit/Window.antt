-- ===== src/RateLimit/Window.antt =====
-- The sliding window lets no more than its rate through in any window, and a ban lasts its duration.
use tiger_swap.Prelude.{
  ℕ, ◌-◌, ◌<◌, ◌≤◌, ◌≡◌, refl, true, List, [], ◌∷◌, ◌++◌, some, inl, inr, length, length-append,
  ltb, leb, if◌then◌else◌, String, arith, ap, ◌∙◌, sym, Bool-cases,
}
use text.Mathlib.Text.{◌==◌ as str_eq}
use text.Mathlib.TextEquality.{eq_iff}
use tiger_swap.RateLimit.{
  lookup, store, IpBanList, ban_ip, is_banned, SlidingWindow, recent, times_of, sliding_allow,
}

lookup-store {ℓ} :
    {A : Type ℓ} (k : String) (a : A) (m : List (String × A)) → lookup k (store k a m) ≡ some a
unfolding lookup store
lookup-store k a [] = let same : str_eq k k ≡ true = (eq_iff k k).1 refl in rw (lookup, same) refl
lookup-store k a (ka ∷ kas) = elim (Bool-cases (str_eq ka.0 k)) [
  | inl hit ↦ rw (store, hit) (rw (lookup, hit) refl)
  | inr miss ↦ rw (store, miss) (rw (lookup, miss) (lookup-store k a kas))
]

-- A ban holds for just the time that it is meant to.
pub ban_lasts :
    (ip : String) (now later : ℕ) (bl : IpBanList)
    → (is_banned ip later (ban_ip ip now bl)).0 ≡ ltb (later - now) bl.duration
unfolding is_banned ban_ip
ban_lasts ip now later bl =
    let found = lookup-store ip now bl.banned in
    elim (Bool-cases (ltb (later - now) bl.duration)) [
      | inl holds ↦ rw (is_banned, ban_ip, found, holds) refl
      | inr over ↦ rw (is_banned, ban_ip, found, over) refl
    ]

module _ (window : ℕ) where
  recent-append :
      (now : ℕ) (xs ys : List ℕ)
      → recent window now (xs ++ ys) ≡ recent window now xs ++ recent window now ys
  unfolding recent
  recent-append now [] ys = refl
  recent-append now (x ∷ xs) ys = ground (arith, recent-append now xs ys)

  recent-recent :
      (now later : ℕ) (ts : List ℕ)
      → now ≤ later
      → recent window later (recent window now ts) ≡ recent window later ts
  unfolding recent
  recent-recent now later [] h = refl
  recent-recent now later (t ∷ ts) h = ground (arith, recent-recent now later ts h)

  length-recent : (now : ℕ) (ts : List ℕ) → length (recent window now ts) ≤ length ts
  unfolding recent
  length-recent now [] = omega arith
  length-recent now (t ∷ ts) = ground (arith, length-recent now ts)

-- The requests of one key, the latest first, and those that were let through, the latest last.
unfoldable pub serve : String → List ℕ → SlidingWindow → SlidingWindow × List ℕ
serve key [] rl = (rl, [])
serve key (t ∷ earlier) rl =
    let before = serve key earlier rl in
    let r = sliding_allow before.0 key t in (r.1, if r.0 then before.1 ++ (t ∷ []) else before.1)

-- The times do not rise along the list, from below `now`.
abbrev pub Earlier : ℕ → List ℕ → Type 0
Earlier now [] = Unit {0}
Earlier now (t ∷ ts) = (t ≤ now) × Earlier t ts

-- The limiter keeps what matters of the granted requests from `now` on, and these are within the rate.
record Limited (key : String) (rl₀ : SlidingWindow) (now : ℕ) (rl : SlidingWindow)
    (granted : List ℕ) : Type 0 where
  window_eq : rl.window ≡ rl₀.window
  rate_eq : rl.rate ≡ rl₀.rate
  kept :
      (later : ℕ)
      → now ≤ later
      → recent rl₀.window later (times_of (lookup key rl.requests))
        ≡ recent rl₀.window later granted
  bounded : length (recent rl₀.window now granted) ≤ rl₀.rate

module _ (key : String) (rl₀ : SlidingWindow) where
  later-Limited :
      (t now : ℕ) (rl : SlidingWindow) (g : List ℕ)
      → t ≤ now
      → Limited key rl₀ t rl g
      → Limited key rl₀ now rl g
  later-Limited t now rl g h l = record {
    window_eq = l.window_eq;
    rate_eq = l.rate_eq;
    kept = λ later k. l.kept later (omega arith);
    bounded =
        let shorter = length-recent rl₀.window now (recent rl₀.window t g) in
        omega (
          arith,
          l.bounded,
          shorter,
          ap (λ (xs : List ℕ). length xs) (recent-recent rl₀.window t now g h),
        );
  }

  module _ (t : ℕ) (rl : SlidingWindow) (g : List ℕ) (l : Limited key rl₀ t rl g) where
    valid : List ℕ
    valid = recent rl.window t (times_of (lookup key rl.requests))

    valid-recent :
        (later : ℕ) → t ≤ later → recent rl₀.window later valid ≡ recent rl₀.window later g
    unfolding valid
    valid-recent later k =
        ap (λ w. recent rl₀.window later (recent w t (times_of (lookup key rl.requests))))
          l.window_eq
        ∙ recent-recent rl₀.window t later (times_of (lookup key rl.requests)) k
        ∙ l.kept later k

    valid-length : length valid ≡ length (recent rl₀.window t g)
    unfolding valid
    valid-length =
        ap (λ w. length (recent w t (times_of (lookup key rl.requests)))) l.window_eq
        ∙ ap (λ (ts : List ℕ). length ts) (l.kept t (omega arith))

    stored :
        (ts : List ℕ) (later : ℕ)
        → recent rl₀.window later (times_of (lookup key (store key ts rl.requests)))
          ≡ recent rl₀.window later ts
    stored ts later =
        ap (λ o. recent rl₀.window later (times_of o)) (lookup-store key ts rl.requests)

    denied-Limited : Limited key rl₀ t (record rl { requests = store key valid rl.requests }) g
    denied-Limited = record {
      window_eq = l.window_eq;
      rate_eq = l.rate_eq;
      kept = λ later k. stored valid later ∙ valid-recent later k;
      bounded = l.bounded;
    }

    granted-Limited :
        length valid < rl.rate
        → Limited key rl₀ t
            (record rl { requests = store key (valid ++ (t ∷ [])) rl.requests })
            (g ++ (t ∷ []))
    granted-Limited room = record {
      window_eq = l.window_eq;
      rate_eq = l.rate_eq;
      kept = λ later k.
          stored (valid ++ (t ∷ [])) later
          ∙ recent-append rl₀.window later valid (t ∷ [])
          ∙ ap (λ ts. ts ++ recent rl₀.window later (t ∷ [])) (valid-recent later k)
          ∙ sym (recent-append rl₀.window later g (t ∷ []));
      bounded =
          let split = ap (λ (ts : List ℕ). length ts) (recent-append rl₀.window t g (t ∷ [])) in
          let sum = length-append (recent rl₀.window t g) (recent rl₀.window t (t ∷ [])) in
          let one = length-recent rl₀.window t (t ∷ []) in
          omega (arith, split, sum, one, valid-length, room, l.rate_eq);
    }

    allow-Limited :
        Limited key rl₀ t
          (sliding_allow rl key t).1
          (if (sliding_allow rl key t).0 then g ++ (t ∷ []) else g)
    unfolding sliding_allow valid
    allow-Limited = elim (Bool-cases (leb rl.rate (length valid))) [
      | inl full ↦ rw (sliding_allow, full) denied-Limited
      | inr room ↦ rw (sliding_allow, room) (granted-Limited (ground arith))
    ]

  serve-Limited :
      (now : ℕ) (ts : List ℕ)
      → rl₀.requests ≡ []
      → Earlier now ts
      → Limited key rl₀ now (serve key ts rl₀).0 (serve key ts rl₀).1
  unfolding serve recent lookup
  serve-Limited now [] e h = record {
    window_eq = refl;
    rate_eq = refl;
    kept = λ later k. ap (λ m. recent rl₀.window later (times_of (lookup key m))) e;
    bounded = omega arith;
  }
  serve-Limited now (t ∷ ts) e h =
      later-Limited t now _ _ h.0
        (allow-Limited t (serve key ts rl₀).0 (serve key ts rl₀).1 (serve-Limited t ts e h.1))

-- Of the requests under one key to a new limiter, at times that do not go back, those that it let through
-- within the window before any later time are no more than its rate.
pub sliding_window_limits :
    (key : String) (rl : SlidingWindow) (ts : List ℕ) (now : ℕ)
    → rl.requests ≡ []
    → Earlier now ts
    → length (recent rl.window now (serve key ts rl).1) ≤ rl.rate
sliding_window_limits key rl ts now e h = (serve-Limited key rl now ts e h).bounded
