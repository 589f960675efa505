-- ===== src/Governance/Tables.antt =====
-- The tables of backend/models/governance.go, and what a handler of
-- backend/services/governance_service.go is: calls of the database and readings of the clock in turn,
-- each of which may end it with a refusal. Calls and readings are counted together: `faults` says which
-- calls fail, `clock` what a reading shows, in nanoseconds of Unix time. A column of a text amount holds
-- the integer that SetString reads from it, `none` where it reads none, and a uuid is a number. A table
-- stands in the order in which its rows were created, the latest first.
use tiger_swap.Prelude.{
  ℕ, ◌+◌, Bool, true, false, List, Option, none, some, ◌⊎◌, inl, inr, if◌then◌else◌, String,
}
use tiger_swap.Prelude.Int.{ℤ}
use tiger_swap.Governance.Amounts.{Text, AmountError}

pub record VeLock : Type 0 where
  pub id : ℕ
  pub user_id : String
  pub amount : Option ℤ
  pub start_time : ℕ
  pub unlock_time : ℕ
  pub withdrawn : Bool

pub record Gauge : Type 0 where
  pub id : ℕ
  pub name : Text
  pub gauge_type : Text
  pub reference : Text
  pub weight : Option ℤ
  pub total_voted : Option ℤ
  pub active : Bool

pub record GaugeVote : Type 0 where
  pub id : ℕ
  pub user_id : String
  pub gauge_id : ℕ
  pub weight : Option ℤ

pub record Bribe : Type 0 where
  pub id : ℕ
  pub gauge_id : ℕ
  pub epoch : ℕ
  pub token : Text
  pub amount : Option ℤ
  pub total_weight : Option ℤ
  pub funder_id : String

pub record BribeClaim : Type 0 where
  pub id : ℕ
  pub bribe_id : ℕ
  pub user_id : String
  pub amount : Option ℤ

-- `next_id` is the next fresh uuid.
pub record Tables : Type 0 where
  pub locks : List VeLock
  pub gauges : List Gauge
  pub votes : List GaugeVote
  pub bribes : List Bribe
  pub claims : List BribeClaim
  pub next_id : ℕ

pub record Site : Type 0 where
  pub tables : Tables
  pub calls : ℕ

-- What the handlers use of their surroundings. `seconds` is int64(d.Seconds()) of a duration that is
-- not negative, which rounds in float64; `lower` and `upper` are strings.ToLower and strings.ToUpper.
pub record Env : Type 0 where
  pub faults : ℕ → Bool
  pub clock : ℕ → ℕ
  pub seconds : ℕ → ℕ
  pub lower : Text → Text
  pub upper : Text → Text

-- The error answers; `database` is any answer of status 500, `panicked` a panic that gin recovers.
pub data Refusal : Type 0 where
  unauthorized bad_body bad_id lock_too_short lock_too_long lock_exists lock_not_found : Refusal
  already_withdrawn not_expired no_gauge_name bad_gauge_type gauge_not_found over_power : Refusal
  bad_token bribe_not_found no_vote no_weight zero_share already_claimed database panicked : Refusal
  bad_amount : AmountError → Refusal

unfoldable pub status_of : Refusal → ℕ
status_of unauthorized = 401
status_of lock_exists = 409
status_of already_withdrawn = 409
status_of already_claimed = 409
status_of lock_not_found = 404
status_of gauge_not_found = 404
status_of bribe_not_found = 404
status_of database = 500
status_of panicked = 500
status_of _ = 400

pub data Result (A : Type 0) : Type 0 where
  ok : A → Result A
  refused : Refusal → Result A

abbrev pub Action : Type 0 → Type 0
Action A = Site → Result A × Site

abbrev pub called : Site → Site
called s = record s { calls = s.calls + 1 }

module _ {A : Type 0} where
  abbrev pub pure : A → Action A
  pure a s = (ok a, s)

  abbrev pub refuse : Refusal → Action A
  refuse e s = (refused e, s)

  abbrev pub require_some : Option A → Refusal → Action A
  require_some none e = refuse e
  require_some (some a) e = pure a

  abbrev pub require_amount : AmountError ⊎ A → Action A
  require_amount (inl e) = refuse (bad_amount e)
  require_amount (inr a) = pure a

  -- What the handler knows of the tables with no call, such as the id that a row is created under.
  unfoldable pub peek : (Tables → A) → Action A
  peek f s = (ok (f s.tables), s)

  -- One call that reads the tables.
  unfoldable pub query : Env → Refusal → (Tables → A) → Action A
  query env e f s = (if env.faults s.calls then refused e else ok (f s.tables), called s)

infixl 5 ◌>>=◌ ◌>>◌
unfoldable pub ◌>>=◌ : {A B : Type 0} → Action A → (A → Action B) → Action B
◌>>=◌ m f s = let (r, t) = m s in elim r [ ok a ↦ f a t | refused e ↦ (refused e, t) ]

abbrev pub ◌>>◌ : {A B : Type 0} → Action A → Action B → Action B
m >> k = m >>= λ _. k

abbrev pub require : Bool → Refusal → Action (Unit {0})
require true e = pure tt
require false e = refuse e

-- One call that writes the tables.
unfoldable pub write : Env → Refusal → (Tables → Tables) → Action (Unit {0})
write env e f s =
    if env.faults s.calls
    then (refused e, called s)
    else (ok tt, record { tables = f s.tables; calls = s.calls + 1 })

-- time.Now()
abbrev pub time_now : Env → Action ℕ
time_now env s = (ok (env.clock s.calls), called s)

-- gorm's Transaction: the tables are as before unless the body and the commit succeed. Any error of it
-- is answered by `e`.
unfoldable pub in_transaction : Env → Refusal → Action (Unit {0}) → Action (Unit {0})
in_transaction env e body s =
    let (r, t) = body (called s) in
    let undone : Site = record t { tables = s.tables } in
    if env.faults s.calls then (refused e, called s) else elim r [
      | refused _ ↦ (refused e, undone)
      | ok _ ↦ if env.faults t.calls then (refused e, called undone) else (ok tt, called t)
    ]
