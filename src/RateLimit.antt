-- ===== src/RateLimit.antt =====
-- Request limits: RateLimiter and IPBanList of backend/middleware/rate_limit.go, and the sliding window
-- of backend/go/distributed/cache/main.go. Instants and durations are whole nanoseconds. A map is an
-- association list; the loop of cleanup is the function that one tick of its clock runs.
mod Window
mod Tests
use tiger_swap.Prelude.{
  ℕ, ◌+◌, ◌-◌, ◌*◌, Bool, true, false, not, ◌&&◌, ◌||◌, List, [], ◌∷◌, ◌++◌, Option, none, some,
  length, ltb, leb, if◌then◌else◌, String,
}
use text.Mathlib.Text.{◌==◌ as str_eq}
use tiger_swap.Prelude.Int.{ℤ, pos, negsuc, sub_ℕ}

-- The value under a key, and a write under it.
unfoldable pub lookup {ℓ} : {A : Type ℓ} → String → List (String × A) → Option A
lookup k [] = none
lookup k (ka ∷ kas) = if str_eq ka.0 k then some ka.1 else lookup k kas

unfoldable pub store {ℓ} : {A : Type ℓ} → String → A → List (String × A) → List (String × A)
store k a [] = (k, a) ∷ []
store k a (ka ∷ kas) = if str_eq ka.0 k then (ka.0, a) ∷ kas else ka ∷ store k a kas

-- The entries whose value passes the test.
unfoldable pub retain {ℓ} : {A : Type ℓ} → (A → Bool) → List (String × A) → List (String × A)
retain keep [] = []
retain keep (ka ∷ kas) = if keep ka.1 then ka ∷ retain keep kas else retain keep kas

pub record Bucket : Type 0 where
  pub tokens : ℤ
  pub last_fill : ℕ

pub record RateLimiter : Type 0 where
  pub requests : List (String × Bucket)
  pub rate : ℕ
  pub window : ℕ

unfoldable pub new_rate_limiter : ℕ → ℕ → RateLimiter
new_rate_limiter requests window = record { requests = []; rate = requests; window = window }

-- A fresh window, of which this request takes a token.
unfoldable pub fresh_bucket : RateLimiter → ℕ → Bucket
fresh_bucket rl now = record { tokens = sub_ℕ rl.rate 1; last_fill = now }

-- What `allow` makes of the key's bucket: whether it lets the request through, and the bucket after it.
unfoldable pub draw : RateLimiter → ℕ → Option Bucket → Bool × Bucket
draw rl now none = (true, fresh_bucket rl now)
draw rl now (some b) =
    if ltb rl.window (now - b.last_fill) then (true, fresh_bucket rl now) else elim b.tokens [
      | pos n ↦ if ltb 0 n then (true, record b { tokens = pos (n - 1) }) else (false, b)
      | negsuc n ↦ (false, b)
    ]

unfoldable pub allow : RateLimiter → String → ℕ → Bool × RateLimiter
allow rl key now =
    let r = draw rl now (lookup key rl.requests) in
    (r.0, record rl { requests = store key r.1 rl.requests })

unfoldable pub cleanup : RateLimiter → ℕ → RateLimiter
cleanup rl now = record rl {
  requests = retain (λ b. leb (now - b.last_fill) (rl.window * 2)) rl.requests;
}

pub record IpBanList : Type 0 where
  pub banned : List (String × ℕ)
  pub duration : ℕ

unfoldable pub ban_ip : String → ℕ → IpBanList → IpBanList
ban_ip ip now bl = record bl { banned = store ip now bl.banned }

unfoldable pub unban : String → List (String × ℕ) → List (String × ℕ)
unban ip [] = []
unban ip (it ∷ its) = if str_eq it.0 ip then its else it ∷ unban ip its

-- A ban that has run out is deleted.
unfoldable pub is_banned : String → ℕ → IpBanList → Bool × IpBanList
is_banned ip now bl = elim (lookup ip bl.banned) [
  | none ↦ (false, bl)
  | some since ↦
      if ltb (now - since) bl.duration
      then (true, bl)
      else (false, record bl { banned = unban ip bl.banned })
]

pub record SlidingWindow : Type 0 where
  pub requests : List (String × List ℕ)
  pub rate : ℕ
  pub window : ℕ

-- `t.After(now.Add(-window))`
unfoldable pub recent : ℕ → ℕ → List ℕ → List ℕ
recent window now [] = []
recent window now (t ∷ ts) =
    if ltb now (t + window) then t ∷ recent window now ts else recent window now ts

abbrev pub times_of : Option (List ℕ) → List ℕ
times_of none = []
times_of (some ts) = ts

unfoldable pub sliding_allow : SlidingWindow → String → ℕ → Bool × SlidingWindow
sliding_allow rl key now =
    let valid = recent rl.window now (times_of (lookup key rl.requests)) in
    if leb rl.rate (length valid)
    then (false, record rl { requests = store key valid rl.requests })
    else (true, record rl { requests = store key (valid ++ (now ∷ [])) rl.requests })

unfoldable pub prune : ℕ → ℕ → List (String × List ℕ) → List (String × List ℕ)
prune window now [] = []
prune window now (kt ∷ kts) = elim (recent (window * 2) now kt.1) [
  | [] ↦ prune window now kts
  | t ∷ ts ↦ (kt.0, t ∷ ts) ∷ prune window now kts
]

unfoldable pub sliding_cleanup : SlidingWindow → ℕ → SlidingWindow
sliding_cleanup rl now = record rl { requests = prune rl.window now rl.requests }
