-- ===== src/Ledger/Runs.antt =====
-- Any sequence of credits and debits, and what a credit does not write.
use tiger_swap.Prelude.{
  ℕ, ◌<◌, ◌≡◌, refl, Bool, List, [], ◌∷◌, Option, none, some, ◌⊎◌, inl, inr, ◌==◌, String, arith,
  ap, sym, subst, Bool-cases, Option-cases,
}
use tiger_swap.Prelude.Int.{ℤ, pos, negsuc, ◌≤ℤ◌, positive}
use tiger_swap.Ledger.{
  AccountBalance, Database, called, Account, LedgerError, credit_not_positive, debit_not_positive,
  find_row, available, read_amount, transaction, credit_within, debit_within, credit, debit,
}
use tiger_swap.Ledger.Rows.{TableOk, IsFunded, find_row-All}
use tiger_swap.Ledger.Outcomes.{Settled, rejected, failed, committed, credit-Settled, debit-Settled}

pub data Move : Type 0 where
  crediting : Account → String → ℕ → Option ℤ → Move
  debiting : Account → Option ℤ → Move

unfoldable pub perform : (ℕ → Bool) → Move → Database → Database
perform faults (crediting k symbol decimals amount) db =
    (credit faults k symbol decimals amount db).1
perform faults (debiting k amount) db = (debit faults k amount db).1

unfoldable pub perform_all : (ℕ → Bool) → List Move → Database → Database
unfolding perform
perform_all faults [] db = db
perform_all faults (m ∷ ms) db = perform_all faults ms (perform faults m db)

abbrev pub empty_database : Database
empty_database = record { rows = []; next_id = 0; calls = 0 }

positive-some : (x : Option ℤ) (n : ℕ) → positive x ≡ some n → (x ≡ some (pos n)) × (0 < n)
unfolding positive
positive-some none n e = absurd (cc)
positive-some (some (negsuc m)) n e = absurd (cc)
positive-some (some (pos m)) n e = elim (Bool-cases (m == 0)) [
  | inl zero_amount ↦ absurd (let bad : none ≡ some n = rw (zero_amount, positive) at e in cc)
  | inr some_amount ↦
      let same : some m ≡ some n = rw (some_amount, positive) at e in
      let equal : m ≡ n = cc in (ap (λ (i : ℕ). some (pos i)) equal, ground arith)
]

kept-TableOk :
    (db after : Database)
    → TableOk db.next_id db.rows
    → after.rows ≡ db.rows
    → after.next_id ≡ db.next_id
    → TableOk after.next_id after.rows
kept-TableOk db after ok rows ids =
    subst (λ n. TableOk n after.rows) (sym ids) (subst (λ rs. TableOk db.next_id rs) (sym rows) ok)

Settled-TableOk :
    {faults : ℕ → Bool} {k : Account} {fn : ℤ → LedgerError ⊎ ℤ} (db after : Database)
    (e : Option LedgerError)
    → TableOk db.next_id db.rows
    → Settled faults k fn db after e
    → TableOk after.next_id after.rows
Settled-TableOk db after _ ok (rejected e q rows ids) = kept-TableOk db after ok rows ids
Settled-TableOk db after _ ok (failed c q rows ids) = kept-TableOk db after ok rows ids
Settled-TableOk db after _ ok (committed v q w t) = t

-- A body that gives up at once leaves the table.
given_up :
    (faults : ℕ → Bool) (body : Database → Option LedgerError × Database) (db : Database)
    (e : LedgerError)
    → body (called db) ≡ (some e, called db)
    → TableOk db.next_id db.rows
    → TableOk (transaction faults body db).1.next_id (transaction faults body db).1.rows
unfolding transaction
given_up faults body db e q ok = elim (Bool-cases (faults db.calls)) [
  | inl fault ↦ rw (transaction, fault) ok
  | inr fine ↦ rw (transaction, fine, q) ok
]

perform-TableOk :
    (faults : ℕ → Bool) (m : Move) (db : Database)
    → TableOk db.next_id db.rows
    → TableOk (perform faults m db).next_id (perform faults m db).rows
unfolding perform credit debit credit_within debit_within
perform-TableOk faults (crediting k symbol decimals amount) db ok =
    elim (Option-cases (positive amount)) [
      | inl bad ↦
          given_up faults (credit_within faults k symbol decimals amount) db credit_not_positive
            (rw (credit_within, bad) refl) ok
      | inr (n, good) ↦
          let p = positive-some amount n good in
          rw p.0 (Settled-TableOk db _ _ ok (credit-Settled faults k symbol decimals n db p.1 ok))
    ]
perform-TableOk faults (debiting k amount) db ok = elim (Option-cases (positive amount)) [
  | inl bad ↦
      given_up faults (debit_within faults k amount) db debit_not_positive
        (rw (debit_within, bad) refl) ok
  | inr (n, good) ↦
      let p = positive-some amount n good in
      rw p.0 (Settled-TableOk db _ _ ok (debit-Settled faults k n db p.1 ok))
]

available-nonneg :
    (k : Account) (n : ℕ) (rs : List AccountBalance) → TableOk n rs → pos 0 ≤ℤ available k rs
unfolding available read_amount
available-nonneg k n rs ok = elim (Option-cases (find_row k rs)) [
  | inl missing ↦ rw (available, missing) (omega arith)
  | inr (r, there) ↦
      let f = find_row-All k IsFunded rs r ok.funded there in
      rw (available, there, f.is_amount) (omega arith)
]

perform_all-TableOk :
    (faults : ℕ → Bool) (ms : List Move) (db : Database)
    → TableOk db.next_id db.rows
    → TableOk (perform_all faults ms db).next_id (perform_all faults ms db).rows
unfolding perform_all
perform_all-TableOk faults [] db ok = ok
perform_all-TableOk faults (m ∷ ms) db ok =
    perform_all-TableOk faults ms (perform faults m db) (perform-TableOk faults m db ok)

-- Whatever credits and debits are tried from an empty table, of whatever amounts, and whichever database
-- calls fail, the table is valid: ids are distinct, and no account's balance is below zero.
pub run_never_negative :
    (faults : ℕ → Bool) (ms : List Move) (k : Account)
    → TableOk
        (perform_all faults ms empty_database).next_id
        (perform_all faults ms empty_database).rows
      × (pos 0 ≤ℤ available k (perform_all faults ms empty_database).rows)
run_never_negative faults ms k =
    let ok = perform_all-TableOk faults ms empty_database (record { keyed = tt; funded = tt }) in
    (ok, available-nonneg k _ _ ok)
