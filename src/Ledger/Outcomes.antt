-- ===== src/Ledger/Outcomes.antt =====
-- Credit and Debit as transactions: what an account gains or loses, and that a failure changes nothing.
use tiger_swap.Prelude.{
  ℕ, ◌+◌, ◌-◌, ◌<◌, ◌≡◌, refl, Bool, true, false, Option, none, some, ◌⊎◌, inl, inr, String, arith,
  ap, sym, subst, Bool-cases,
}
use tiger_swap.Prelude.Int.{ℤ, pos, ◌+ℤ◌, ◌-ℤ◌, ltb_ℤ, positive-pos}
use tiger_swap.Ledger.{
  Database, called, Account, LedgerError, database_error, insufficient_balance, available,
  mutate_within, transaction, add_amount, take_amount, credit_within, debit_within, credit, debit,
}
use tiger_swap.Ledger.Rows.{TableOk}
use tiger_swap.Ledger.Moves.{Written, Keeps, Mutated, refused, broken, written, mutate-Mutated}

-- The outcomes of a transaction that mutates the account's balance by `fn`.
pub data Settled (faults : ℕ → Bool) (k : Account) (fn : ℤ → LedgerError ⊎ ℤ) (db after : Database)
    : Option LedgerError → Type 0 where
  rejected :
      (e : LedgerError)
      → fn (available k db.rows) ≡ inl e
      → after.rows ≡ db.rows
      → after.next_id ≡ db.next_id
      → Settled faults k fn db after (some e)
  failed :
      (c : ℕ)
      → faults c ≡ true
      → after.rows ≡ db.rows
      → after.next_id ≡ db.next_id
      → Settled faults k fn db after (some database_error)
  committed :
      (v : ℤ)
      → fn (available k db.rows) ≡ inr v
      → Written k v db.rows after.rows
      → TableOk after.next_id after.rows
      → Settled faults k fn db after none

module _ (faults : ℕ → Bool) (k : Account) (fn : ℤ → LedgerError ⊎ ℤ) (keeps : Keeps fn) where
  ended :
      (db : Database) (r : Option LedgerError × Database)
      → Mutated faults k fn db.rows r.1 r.0
      → faults db.calls ≡ false
      → Settled faults k fn db (transaction faults (λ d. r) db).1 (transaction faults (λ d. r) db).0
  unfolding transaction
  ended db (some e, after) (refused _ q) fine = rw (transaction, fine) (rejected e q refl refl)
  ended db (some _, after) (broken c h) fine = rw (transaction, fine) (failed c h refl refl)
  ended db (none, after) (written v q w ok) fine = elim (Bool-cases (faults after.calls)) [
    | inl fault ↦ rw (transaction, fine, fault) (failed after.calls fault refl refl)
    | inr fine' ↦ rw (transaction, fine, fine') (committed v q w ok)
  ]

  transaction-Settled :
      (symbol : String) (decimals : ℕ) (body : Database → Option LedgerError × Database)
      (db : Database)
      → TableOk db.next_id db.rows
      → body (called db) ≡ mutate_within faults k symbol decimals fn (called db)
      → Settled faults k fn db (transaction faults body db).1 (transaction faults body db).0
  unfolding transaction
  transaction-Settled symbol decimals body db ok e = elim (Bool-cases (faults db.calls)) [
    | inl fault ↦ rw (transaction, fault) (failed db.calls fault refl refl)
    | inr fine ↦
        ended db (body (called db))
          (subst (λ (r : Option LedgerError × Database). Mutated faults k fn db.rows r.1 r.0)
            (sym e) (mutate-Mutated faults k fn keeps symbol decimals (called db) ok))
          fine
  ]

right_of : (v : ℤ) → LedgerError ⊎ ℤ → ℤ
right_of v (inl e) = v
right_of v (inr w) = w

add_amount-inr : (n : ℕ) (a v : ℤ) → add_amount n a ≡ inr v → a +ℤ pos n ≡ v
unfolding add_amount right_of
add_amount-inr n a v e = ap (right_of v) e

add_amount-inl : (n : ℕ) (a : ℤ) (x : LedgerError) → add_amount n a ≡ inl x → ⊥
unfolding add_amount
add_amount-inl n a x e = cc

take_amount-inr :
    (n : ℕ) (a v : ℤ) → take_amount n a ≡ inr v → (ltb_ℤ a (pos n) ≡ false) × (a -ℤ pos n ≡ v)
unfolding take_amount right_of
take_amount-inr n a v e = elim (Bool-cases (ltb_ℤ a (pos n))) [
  | inl short ↦
      absurd (let bad : inl insufficient_balance ≡ inr v = rw (short, take_amount) at e in cc)
  | inr enough ↦ (enough, ap (right_of v) (rw (enough, take_amount) at e))
]

take_amount-inl :
    (n : ℕ) (a : ℤ) (x : LedgerError)
    → take_amount n a ≡ inl x
    → (ltb_ℤ a (pos n) ≡ true) × (x ≡ insufficient_balance)
unfolding take_amount
take_amount-inl n a x e = elim (Bool-cases (ltb_ℤ a (pos n))) [
  | inl short ↦ (
    short,
    let same : Path (LedgerError ⊎ ℤ) (inl insufficient_balance) (inl x) =
          rw (short, take_amount) at e in
        cc,
  )
  | inr enough ↦ absurd (let bad : inr (a -ℤ pos n) ≡ inl x = rw (enough, take_amount) at e in cc)
]

add-Keeps : (amount : ℕ) → Keeps (add_amount amount)
unfolding add_amount ◌+ℤ◌
add-Keeps amount m v e = (m + amount, ground arith)

take-Keeps : (amount : ℕ) → Keeps (take_amount amount)
unfolding take_amount ◌-ℤ◌
take-Keeps amount m v e = (m - amount, ground arith)

pub credit-Settled :
    (faults : ℕ → Bool) (k : Account) (symbol : String) (decimals amount : ℕ) (db : Database)
    → 0 < amount
    → TableOk db.next_id db.rows
    → Settled faults k
        (add_amount amount)
        db
        (credit faults k symbol decimals (some (pos amount)) db).1
        (credit faults k symbol decimals (some (pos amount)) db).0
unfolding credit credit_within
credit-Settled faults k symbol decimals amount db h ok =
    transaction-Settled faults k (add_amount amount) (add-Keeps amount) symbol decimals
      (credit_within faults k symbol decimals (some (pos amount))) db ok
      (rw (credit_within, positive-pos amount h) refl)

pub debit-Settled :
    (faults : ℕ → Bool) (k : Account) (amount : ℕ) (db : Database)
    → 0 < amount
    → TableOk db.next_id db.rows
    → Settled faults k
        (take_amount amount)
        db
        (debit faults k (some (pos amount)) db).1
        (debit faults k (some (pos amount)) db).0
unfolding debit debit_within
debit-Settled faults k amount db h ok =
    transaction-Settled faults k (take_amount amount) (take-Keeps amount) "" 0
      (debit_within faults k (some (pos amount))) db ok
      (rw (debit_within, positive-pos amount h) refl)

-- A call of the database failed, and the table is as it was.
abbrev pub Failed : (ℕ → Bool) → Database → Option LedgerError × Database → Type 0
Failed faults db r =
    (r.0 ≡ some database_error) × ((c : ℕ) × (faults c ≡ true)) × (r.1.rows ≡ db.rows)

abbrev pub Moved : Account → ℤ → Database → Option LedgerError × Database → Type 0
Moved k v db r = (r.0 ≡ none) × Written k v db.rows r.1.rows × TableOk r.1.next_id r.1.rows

-- On a valid table a credit of a positive amount adds exactly that amount to the account's balance, with
-- or without a row of it before, and leaves every other account's as it was and the table valid. Only
-- where a call of the database fails does it fail, and then the table is unchanged.
pub credit_outcomes :
    (faults : ℕ → Bool) (k : Account) (symbol : String) (decimals amount : ℕ) (db : Database)
    → 0 < amount
    → TableOk db.next_id db.rows
    → Failed faults db (credit faults k symbol decimals (some (pos amount)) db)
      ⊎ Moved k
          (available k db.rows +ℤ pos amount)
          db
          (credit faults k symbol decimals (some (pos amount)) db)
credit_outcomes faults k symbol decimals amount db h ok =
    go _ (credit-Settled faults k symbol decimals amount db h ok)
  where
    go :
        (r : Option LedgerError × Database)
        → Settled faults k (add_amount amount) db r.1 r.0
        → Failed faults db r ⊎ Moved k (available k db.rows +ℤ pos amount) db r
    go (some e, after) (rejected _ q rows _) =
        absurd (add_amount-inl amount (available k db.rows) e q)
    go (some _, after) (failed c q rows _) = inl (refl, (c, q), rows)
    go (none, after) (committed v q w t) = inr (
      refl,
      subst (λ u. Written k u db.rows after.rows)
          (sym (add_amount-inr amount (available k db.rows) v q)) w,
      t,
    )

-- On a valid table a debit of a positive amount is refused just where the account's balance is smaller,
-- and else takes exactly that amount, leaving every other account's balance as it was and the table
-- valid, so no balance below zero. A refusal, or a failing call of the database, changes nothing.
pub debit_outcomes :
    (faults : ℕ → Bool) (k : Account) (amount : ℕ) (db : Database)
    → 0 < amount
    → TableOk db.next_id db.rows
    → Failed faults db (debit faults k (some (pos amount)) db)
      ⊎ (((debit faults k (some (pos amount)) db).0 ≡ some insufficient_balance)
          × ((debit faults k (some (pos amount)) db).1.rows ≡ db.rows)
          × (ltb_ℤ (available k db.rows) (pos amount) ≡ true))
      ⊎ ((ltb_ℤ (available k db.rows) (pos amount) ≡ false)
          × Moved k (available k db.rows -ℤ pos amount) db (debit faults k (some (pos amount)) db))
debit_outcomes faults k amount db h ok = go _ (debit-Settled faults k amount db h ok)
  where
    go :
        (r : Option LedgerError × Database)
        → Settled faults k (take_amount amount) db r.1 r.0
        → Failed faults db r
          ⊎ ((r.0 ≡ some insufficient_balance)
              × (r.1.rows ≡ db.rows)
              × (ltb_ℤ (available k db.rows) (pos amount) ≡ true))
          ⊎ ((ltb_ℤ (available k db.rows) (pos amount) ≡ false)
              × Moved k (available k db.rows -ℤ pos amount) db r)
    go (some e, after) (rejected _ q rows _) =
        let short = take_amount-inl amount (available k db.rows) e q in
        inr (inl (ap some short.1, rows, short.0))
    go (some _, after) (failed c q rows _) = inl (refl, (c, q), rows)
    go (none, after) (committed v q w t) =
        let enough = take_amount-inr amount (available k db.rows) v q in
        inr
          (inr (enough.0, (refl, subst (λ u. Written k u db.rows after.rows) (sym enough.1) w, t)))
