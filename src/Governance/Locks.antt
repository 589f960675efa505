-- ===== src/Governance/Locks.antt =====
-- The handlers of vote-escrowed locks of backend/services/governance_service.go: CreateLock, GetLocks
-- and WithdrawLock. A body that ShouldBindJSON rejects is none.
use text.Mathlib.Text.{◌==◌ as str_eq}
use tiger_swap.Prelude.{
  ℕ, ◌+◌, ◌*◌, Bool, true, false, not, ◌&&◌, List, [], ◌∷◌, Option, none, some, ltb, ◌==◌,
  if◌then◌else◌, String,
}
use tiger_swap.Prelude.Int.{ℤ, pos, ltb_ℤ, pos_part}
use tiger_swap.Governance.Amounts.{Text, parse_amount}
use tiger_swap.Governance.Tables.{
  VeLock, Tables, Env, unauthorized, bad_body, bad_id, lock_too_short, lock_too_long, lock_exists,
  lock_not_found, already_withdrawn, not_expired, database, panicked, Action, pure, require,
  require_some, require_amount, peek, query, write, time_now, ◌>>=◌, ◌>>◌,
}
use tiger_swap.Governance.Power.{
  second, min_lock_seconds, max_lock_seconds, voting_power, total_voting_power,
}

pub record LockBody : Type 0 where
  pub amount : Text
  pub duration_seconds : ℤ

-- user_id = ? AND withdrawn = false AND unlock_time > ?
unfoldable pub is_open : String → ℕ → VeLock → Bool
is_open user t l = str_eq l.user_id user && (not l.withdrawn && ltb t l.unlock_time)

unfoldable pub count_open : String → ℕ → List VeLock → ℕ
unfolding is_open
count_open user t [] = 0
count_open user t (l ∷ ls) = (if is_open user t l then 1 else 0) + count_open user t ls

abbrev pub new_lock : ℕ → String → ℕ → ℕ → ℕ → VeLock
new_lock id user amount start duration = record {
  id = id;
  user_id = user;
  amount = some (pos amount);
  start_time = start;
  unlock_time = start + duration * second;
  withdrawn = false;
}

abbrev pub add_lock : String → ℕ → ℕ → ℕ → Tables → Tables
add_lock user amount start duration t = record t {
  locks = new_lock t.next_id user amount start duration ∷ t.locks;
  next_id = t.next_id + 1;
}

pub record LockReply : Type 0 where
  pub lock : VeLock
  pub voting_power : ℤ

unfoldable pub create_lock : Env → Option String → Option LockBody → Action LockReply
unfolding parse_amount count_open
create_lock env user body = do
  user ← require_some user unauthorized
  req ← require_some body bad_body
  amount ← require_amount (parse_amount req.amount)
  require (not (ltb_ℤ req.duration_seconds (pos min_lock_seconds))) lock_too_short
  require (not (ltb_ℤ (pos max_lock_seconds) req.duration_seconds)) lock_too_long
  at ← time_now env
  open_locks ← query env database (λ t. count_open user at t.locks)
  require (open_locks == 0) lock_exists
  start ← time_now env
  id ← peek (λ t. t.next_id)
  write env database (add_lock user amount start (pos_part req.duration_seconds))
  let lock = new_lock id user amount start (pos_part req.duration_seconds)
  power ← require_some (voting_power env lock start) panicked
  pure (record { lock = lock; voting_power = power })

-- WHERE user_id = ?, the latest first.
unfoldable pub locks_of : String → List VeLock → List VeLock
locks_of user [] = []
locks_of user (l ∷ ls) =
    let rest = locks_of user ls in if str_eq l.user_id user then l ∷ rest else rest

lock_views : Env → ℕ → List VeLock → Option (List LockReply)
lock_views env t [] = some []
lock_views env t (l ∷ ls) = elim (voting_power env l t) [
  | none ↦ none
  | some p ↦ elim (lock_views env t ls) [
    | none ↦ none
    | some views ↦ some (record { lock = l; voting_power = p } ∷ views)
  ]
]

-- The views, and the total of the powers.
unfoldable pub get_locks : Env → Option String → Action (List LockReply × ℤ)
unfolding locks_of lock_views total_voting_power
get_locks env user = do
  user ← require_some user unauthorized
  found ← query env database (λ t. locks_of user t.locks)
  t ← time_now env
  views ← require_some (lock_views env t found) panicked
  total ← total_voting_power env user t
  pure (views, total)

-- WHERE id = ? AND user_id = ?
unfoldable pub is_lock : ℕ → String → VeLock → Bool
is_lock id user l = l.id == id && str_eq l.user_id user

unfoldable pub find_lock : ℕ → String → List VeLock → Option VeLock
unfolding is_lock
find_lock id user [] = none
find_lock id user (l ∷ ls) = if is_lock id user l then some l else find_lock id user ls

-- Save writes every column of the row with the lock's id.
unfoldable pub save_lock : VeLock → List VeLock → List VeLock
save_lock lock [] = []
save_lock lock (l ∷ ls) = (if l.id == lock.id then lock else l) ∷ save_lock lock ls

unfoldable pub withdraw_lock : Env → Option String → Option ℕ → Action (Option ℤ)
unfolding find_lock save_lock
withdraw_lock env user lock_id = do
  user ← require_some user unauthorized
  id ← require_some lock_id bad_id
  found ← query env database (λ t. find_lock id user t.locks)
  lock ← require_some found lock_not_found
  require (not lock.withdrawn) already_withdrawn
  t ← time_now env
  require (not (ltb t lock.unlock_time)) not_expired
  write env database
      (λ t. record t { locks = save_lock (record lock { withdrawn = true }) t.locks })
  pure lock.amount
