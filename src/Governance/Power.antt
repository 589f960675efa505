-- ===== src/Governance/Power.antt =====
-- Voting power and the farm boost of backend/services/governance_service.go: CurrentEpoch, votingPower,
-- totalVotingPower, BoostBps, GetBoost and formatBps. A division by zero, which panics, gives none.
use mathlib.Core.List.{reverse}
use text.Mathlib.Text.{◌==◌ as str_eq}
use tiger_swap.Prelude.{
  ℕ, ◌+◌, ◌-◌, ◌/◌, ◌%◌, Bool, not, ◌&&◌, ◌||◌, List, [], ◌∷◌, ◌++◌, Option, none, some, ltb, ◌==◌,
  if◌then◌else◌, String,
}
use tiger_swap.Prelude.Int.{ℤ, pos, negsuc, ◌+ℤ◌, ◌*ℤ◌, ltb_ℤ}
use tiger_swap.Prelude.Word.{half_word}
use tiger_swap.Governance.Amounts.{Text, to_text, parse_amount}
use tiger_swap.Governance.Tables.{
  VeLock, Env, unauthorized, panicked, Action, called, pure, require_some, require_amount, time_now,
  ◌>>=◌,
}

abbrev pub second : ℕ
second = 1_000_000_000

abbrev pub week_seconds : ℕ
week_seconds = 604_800

abbrev pub max_lock_seconds : ℕ
max_lock_seconds = 126_144_000

abbrev pub min_lock_seconds : ℕ
min_lock_seconds = week_seconds

abbrev pub min_boost_bps : ℤ
min_boost_bps = pos 10_000

abbrev pub max_boost_bps : ℤ
max_boost_bps = pos 25_000

unfoldable pub current_epoch : ℕ → ℕ
current_epoch t = t / second / week_seconds

-- big.Int's Div, which rounds down where the divisor is positive.
unfoldable pub div_floor : ℤ → ℕ → ℤ
div_floor (pos a) d = pos (a / d)
div_floor (negsuc a) d = negsuc (a / d)

-- t.Sub(u) of times in order is at most the longest duration, and not above zero otherwise.
unfoldable pub sub_time : ℕ → ℕ → ℕ
sub_time t u = let d = t - u in if ltb d half_word then d else half_word - 1

-- amount * remaining / total
unfoldable pub decayed : Option ℤ → ℕ → ℕ → Option ℤ
unfolding div_floor
decayed none remaining total = some (pos 0)
decayed (some a) remaining total =
    if total == 0 then none else some (div_floor (a *ℤ pos remaining) total)

unfoldable pub voting_power : Env → VeLock → ℕ → Option ℤ
unfolding sub_time decayed
voting_power env lock now =
    if lock.withdrawn || not (ltb now lock.unlock_time)
    then some (pos 0)
    else if sub_time lock.unlock_time lock.start_time == 0
    then some (pos 0)
    else decayed lock.amount (env.seconds (sub_time lock.unlock_time now))
        (env.seconds (sub_time lock.unlock_time lock.start_time))

-- WHERE user_id = ? AND withdrawn = false
unfoldable pub not_withdrawn_of : String → VeLock → Bool
not_withdrawn_of user l = str_eq l.user_id user && not l.withdrawn

add_power : Option ℤ → Option ℤ → Option ℤ
add_power none p = none
add_power (some t) none = none
add_power (some t) (some p) = some (t +ℤ p)

unfoldable pub sum_power : Env → String → ℕ → List VeLock → ℤ → Option ℤ
unfolding not_withdrawn_of add_power
sum_power env user now [] total = some total
sum_power env user now (l ∷ ls) total =
    elim (if not_withdrawn_of user l
      then add_power (some total) (voting_power env l now)
      else some total) [ none ↦ none | some t ↦ sum_power env user now ls t ]

-- A failed call counts as no power.
unfoldable pub total_voting_power : Env → String → ℕ → Action ℤ
unfolding sum_power
total_voting_power env user now s =
    if env.faults s.calls
    then pure (pos 0) (called s)
    else require_some (sum_power env user now s.tables.locks (pos 0)) panicked (called s)

-- The bonus on 1x for `staked` units, and the cap.
unfoldable pub boost : ℤ → ℕ → ℤ
unfolding div_floor
boost power staked =
    let total = min_boost_bps +ℤ div_floor (pos 15_000 *ℤ power) staked in
    if ltb_ℤ max_boost_bps total then max_boost_bps else total

-- `none` for nil.
unfoldable pub boost_bps : Env → String → Option ℤ → Action ℤ
unfolding total_voting_power boost
boost_bps env user none = pure min_boost_bps
boost_bps env user (some (negsuc n)) = pure min_boost_bps
boost_bps env user (some (pos n)) =
    if n == 0
    then pure min_boost_bps
    else do t ← time_now env; power ← total_voting_power env user t; pure (boost power n)

drop_zeros : Text → Text
drop_zeros [] = []
drop_zeros (c ∷ cs) = if c == b'0' then drop_zeros cs else c ∷ cs

four_digits : ℕ → Text
four_digits n =
    (b'0' + n / 1000 % 10) ∷ (b'0' + n / 100 % 10) ∷ (b'0' + n / 10 % 10) ∷ (b'0' + n % 10) ∷ []

unfoldable pub format_bps : ℕ → Text
unfolding drop_zeros four_digits to_text
format_bps bps =
    if bps % 10_000 == 0
    then to_text (pos (bps / 10_000))
    else to_text (pos (bps / 10_000))
      ++ b'.' ∷ reverse (drop_zeros (reverse (four_digits (bps % 10_000))))

pub record BoostReply : Type 0 where
  pub voting_power : ℤ
  pub staked_amount : ℕ
  pub boost_bps : ℤ

-- The answer also shows the boost by formatBps.
unfoldable pub get_boost : Env → Option String → Text → Action BoostReply
unfolding total_voting_power boost parse_amount
get_boost env user staked_raw = do
  user ← require_some user unauthorized
  staked ← require_amount (parse_amount staked_raw)
  t ← time_now env
  power ← total_voting_power env user t
  pure (record { voting_power = power; staked_amount = staked; boost_bps = boost power staked })
