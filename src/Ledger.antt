-- ===== src/Ledger.antt =====
-- The account balances of backend/services/ledger_service.go. The database is a table of rows. Every
-- call of it may fail, as `faults` says of the call's number. A transaction that fails leaves the table
-- as it found it. A balance column holds the integer that its text reads as, `none` where it reads as
-- none. `lower` is strings.ToLower.
mod Rows
mod Moves
mod Outcomes
mod Runs
mod Tests
use tiger_swap.Prelude.{
  ℕ, zero, suc, ◌+◌, Bool, true, false, ◌&&◌, List, [], ◌∷◌, map, Option, none, some, ◌⊎◌, inl, inr,
  ◌==◌, if◌then◌else◌, String,
}
use text.Mathlib.Text.{◌==◌ as str_eq}
use tiger_swap.Prelude.Int.{ℤ, pos, negsuc, positive, ltb_ℤ, ◌+ℤ◌, ◌-ℤ◌}

-- models.AccountBalance; a UUID is a number.
pub record AccountBalance : Type 0 where
  pub id : ℕ
  pub user_id : String
  pub chain_id : ℕ
  pub token_address : String
  pub symbol : String
  pub decimals : ℕ
  pub available : Option ℤ
  pub locked : Option ℤ

-- The table, its latest row first, the next fresh id, and how many calls were made.
pub record Database : Type 0 where
  pub rows : List AccountBalance
  pub next_id : ℕ
  pub calls : ℕ

pub data LedgerError : Type 0 where
  credit_not_positive debit_not_positive insufficient_balance database_error : LedgerError

-- The key of the unique index.
pub record Account : Type 0 where
  pub user_id : String
  pub chain_id : ℕ
  pub token_key : String

unfoldable pub normalize_token_address : (String → String) → String → String
normalize_token_address lower address = if str_eq address "" then "native" else lower address

unfoldable pub is_of : Account → AccountBalance → Bool
is_of k r =
    str_eq r.user_id k.user_id && (r.chain_id == k.chain_id && str_eq r.token_address k.token_key)

unfoldable pub find_row : Account → List AccountBalance → Option AccountBalance
find_row k [] = none
find_row k (r ∷ rs) = if is_of k r then some r else find_row k rs

unfoldable pub find_id : ℕ → List AccountBalance → Option AccountBalance
find_id id [] = none
find_id id (r ∷ rs) = if r.id == id then some r else find_id id rs

abbrev pub with_available : ℕ → ℤ → AccountBalance → AccountBalance
with_available id v r = record r { available = if r.id == id then some v else r.available }

-- UPDATE ... SET available WHERE id
unfoldable pub update_available : ℕ → ℤ → List AccountBalance → List AccountBalance
update_available id v rs = map (with_available id v) rs

abbrev pub called : Database → Database
called db = record db { calls = db.calls + 1 }

-- `SetString`, and 0 where it fails.
unfoldable pub read_amount : Option ℤ → ℤ
read_amount none = pos 0
read_amount (some v) = v

-- The end of mutateWithin, on the row under lock: the row's symbol and decimals are set in memory only.
unfoldable pub write_row :
    (ℕ → Bool) → (ℤ → LedgerError ⊎ ℤ) → AccountBalance → Database → Option LedgerError × Database
write_row faults fn row db = elim (fn (read_amount row.available)) [
  | inl e ↦ (some e, db)
  | inr next ↦
      if faults db.calls
      then (some database_error, called db)
      else (none, record (called db) { rows = update_available row.id next db.rows })
]

-- A row that the key lacks is created, and read again under lock.
unfoldable pub create_row :
    (ℕ → Bool)
    → Account
    → String
    → ℕ
    → (ℤ → LedgerError ⊎ ℤ)
    → Database
    → Option LedgerError × Database
unfolding write_row
create_row faults k symbol decimals fn db =
    let row : AccountBalance = record {
      id = db.next_id;
      user_id = k.user_id;
      chain_id = k.chain_id;
      token_address = k.token_key;
      symbol = symbol;
      decimals = decimals;
      available = some (pos 0);
      locked = some (pos 0);
    } in
    let created = record (called db) { rows = row ∷ db.rows; next_id = db.next_id + 1 } in
    if faults db.calls
    then (some database_error, called db)
    else if faults created.calls
    then (some database_error, called created)
    else elim (find_id row.id created.rows) [
      | none ↦ (some database_error, called created)
      | some locked_row ↦ write_row faults fn locked_row (called created)
    ]

unfoldable pub mutate_within :
    (ℕ → Bool)
    → Account
    → String
    → ℕ
    → (ℤ → LedgerError ⊎ ℤ)
    → Database
    → Option LedgerError × Database
unfolding create_row
mutate_within faults k symbol decimals fn db =
    if faults db.calls then (some database_error, called db) else elim (find_row k db.rows) [
      | none ↦ create_row faults k symbol decimals fn (called db)
      | some row ↦ write_row faults fn row (called db)
    ]

-- gorm's Transaction: the table is as before unless `body` and the commit succeed.
unfoldable pub transaction :
    (ℕ → Bool)
    → (Database → Option LedgerError × Database)
    → Database
    → Option LedgerError × Database
transaction faults body db =
    let (failed, after) = body (called db) in
    if faults db.calls then (some database_error, called db) else elim failed [
      | some e ↦ (some e, record after { rows = db.rows; next_id = db.next_id })
      | none ↦
          if faults after.calls
          then (some database_error, record (called after) { rows = db.rows; next_id = db.next_id })
          else (none, called after)
    ]

unfoldable pub add_amount : ℕ → ℤ → LedgerError ⊎ ℤ
add_amount amount available = inr (available +ℤ pos amount)

unfoldable pub take_amount : ℕ → ℤ → LedgerError ⊎ ℤ
take_amount amount available =
    if ltb_ℤ available (pos amount) then inl insufficient_balance else inr (available -ℤ pos amount)

unfoldable pub credit_within :
    (ℕ → Bool) → Account → String → ℕ → Option ℤ → Database → Option LedgerError × Database
unfolding mutate_within add_amount
credit_within faults k symbol decimals amount db = elim (positive amount) [
  | none ↦ (some credit_not_positive, db)
  | some n ↦ mutate_within faults k symbol decimals (add_amount n) db
]

unfoldable pub debit_within :
    (ℕ → Bool) → Account → Option ℤ → Database → Option LedgerError × Database
unfolding mutate_within take_amount
debit_within faults k amount db = elim (positive amount) [
  | none ↦ (some debit_not_positive, db)
  | some n ↦ mutate_within faults k "" 0 (take_amount n) db
]

abbrev pub account : (String → String) → String → ℕ → String → Account
account lower user_id chain_id token_address = record {
  user_id = user_id;
  chain_id = chain_id;
  token_key = normalize_token_address lower token_address;
}

unfoldable pub credit :
    (ℕ → Bool) → Account → String → ℕ → Option ℤ → Database → Option LedgerError × Database
unfolding transaction credit_within
credit faults k symbol decimals amount db =
    transaction faults (credit_within faults k symbol decimals amount) db

unfoldable pub debit : (ℕ → Bool) → Account → Option ℤ → Database → Option LedgerError × Database
unfolding transaction debit_within
debit faults k amount db = transaction faults (debit_within faults k amount) db

-- What Available reads when its query succeeds: 0 for an account with no row.
unfoldable pub available : Account → List AccountBalance → ℤ
unfolding read_amount
available k rs = elim (find_row k rs) [ none ↦ pos 0 | some r ↦ read_amount r.available ]
