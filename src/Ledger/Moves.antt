-- ===== src/Ledger/Moves.antt =====
-- Credits and debits: what they change, when they fail, and that a failure changes nothing.
use tiger_swap.Prelude.{
  ℕ, ◌+◌, ◌≡◌, refl, Bool, true, false, ◌&&◌, List, ◌∷◌, Option, none, some, ◌⊎◌, inl, inr, ◌==◌,
  String, arith, ap, ◌∙◌, sym, subst, Bool-cases, Option-cases,
}
use text.Mathlib.Text.{◌==◌ as str_eq}
use text.Mathlib.TextEquality.{eq_iff}
use tiger_swap.Prelude.Int.{ℤ, pos}
use tiger_swap.Ledger.{
  AccountBalance, Database, called, Account, LedgerError, database_error, is_of, find_row, find_id,
  update_available, read_amount, available, write_row, create_row, mutate_within,
}
use tiger_swap.Ledger.Rows.{
  IsFunded, TableOk, find_row-is_of, find_row-All, available-update_self, available-update_other,
  update_available-TableOk,
}

abbrev pub same_account : Account → Account → Bool
same_account k j =
    str_eq k.user_id j.user_id && (k.chain_id == j.chain_id && str_eq k.token_key j.token_key)

is_of-other :
    (k j : Account) (r : AccountBalance)
    → is_of k r ≡ true
    → same_account k j ≡ false
    → is_of j r ≡ false
unfolding is_of
is_of-other k j r h ne =
    let user : r.user_id ≡ k.user_id = (eq_iff r.user_id k.user_id).0 (ground arith) in
    let token : r.token_address ≡ k.token_key =
      (eq_iff r.token_address k.token_key).0 (ground arith) in
    let chain : r.chain_id ≡ k.chain_id = ground arith in rw (is_of, user, token, chain) ne

-- The account's balance became `v`, and every other account's is as it was.
pub record Written (k : Account) (v : ℤ) (rs rs' : List AccountBalance) : Type 0 where
  pub balance : available k rs' ≡ v
  pub others : (j : Account) → same_account k j ≡ false → available j rs' ≡ available j rs

-- The function takes balances that are not negative to such balances.
abbrev pub Keeps : (ℤ → LedgerError ⊎ ℤ) → Type 0
Keeps fn = (m : ℕ) (v : ℤ) → fn (pos m) ≡ inr v → (n : ℕ) × (v ≡ pos n)

-- The outcomes of a mutation that starts on the rows `rs`.
pub data Mutated (faults : ℕ → Bool) (k : Account) (fn : ℤ → LedgerError ⊎ ℤ)
    (rs : List AccountBalance) (db : Database) : Option LedgerError → Type 0 where
  refused : (e : LedgerError) → fn (available k rs) ≡ inl e → Mutated faults k fn rs db (some e)
  broken : (c : ℕ) → faults c ≡ true → Mutated faults k fn rs db (some database_error)
  written :
      (v : ℤ)
      → fn (available k rs) ≡ inr v
      → Written k v rs db.rows
      → TableOk db.next_id db.rows
      → Mutated faults k fn rs db none

module _ (faults : ℕ → Bool) (k : Account) (fn : ℤ → LedgerError ⊎ ℤ) (keeps : Keeps fn) where
  write_row-Mutated :
      (row : AccountBalance) (db : Database)
      → TableOk db.next_id db.rows
      → find_row k db.rows ≡ some row
      → Mutated faults k fn db.rows (write_row faults fn row db).1 (write_row faults fn row db).0
  unfolding write_row available
  write_row-Mutated row db ok e = go (fn (read_amount row.available)) refl
    where
      reads : available k db.rows ≡ read_amount row.available
      reads = rw (available, e) refl

      next_funded : (v : ℤ) → fn (read_amount row.available) ≡ inr v → (n : ℕ) × (v ≡ pos n)
      next_funded v q =
          let f = find_row-All k IsFunded db.rows row ok.funded e in
          keeps f.amount v (ap (λ (o : Option ℤ). fn (read_amount o)) (sym f.is_amount) ∙ q)

      go :
          (x : LedgerError ⊎ ℤ)
          → fn (read_amount row.available) ≡ x
          → Mutated faults k fn db.rows
              (write_row faults fn row db).1
              (write_row faults fn row db).0
      go (inl err) q = rw (write_row, q) (refused err (rw (reads, q) refl))
      go (inr v) q = elim (Bool-cases (faults db.calls)) [
        | inl fault ↦ rw (write_row, q, fault) (broken db.calls fault)
        | inr fine ↦
            rw (write_row, q, fine)
              (written v (rw (reads, q) refl)
                (record {
                  balance = available-update_self k v db.rows row e;
                  others = λ j ne.
                      available-update_other k j v db.next_id db.rows row ok.keyed e
                        (is_of-other k j row (find_row-is_of k db.rows row e) ne);
                })
                (let f = next_funded v q in
                  subst (λ u. TableOk db.next_id (update_available row.id u db.rows)) (sym f.1)
                    (update_available-TableOk row.id f.0 db.next_id db.rows ok)))
      ]

  -- What a table with a fresh, empty row for the account reads as.
  module _ (row : AccountBalance) (rs : List AccountBalance) (mine : is_of k row ≡ true)
      (empty : row.available ≡ some (pos 0)) (missing : find_row k rs ≡ none) where
    found_fresh : find_row k (row ∷ rs) ≡ some row
    unfolding find_row
    found_fresh = rw (find_row, mine) refl

    fresh_reads : available k (row ∷ rs) ≡ available k rs
    unfolding available read_amount
    fresh_reads = rw (available, found_fresh, missing, empty) refl

    fresh_others :
        (j : Account) → same_account k j ≡ false → available j (row ∷ rs) ≡ available j rs
    unfolding available find_row
    fresh_others j ne = rw (available, find_row, is_of-other k j row mine ne) refl

    fresh-Mutated :
        {db : Database} (e : Option LedgerError)
        → Mutated faults k fn (row ∷ rs) db e
        → Mutated faults k fn rs db e
    fresh-Mutated _ (refused e q) = refused e (ap fn (sym fresh_reads) ∙ q)
    fresh-Mutated _ (broken c h) = broken c h
    fresh-Mutated _ (written v q w ok) =
        written v (ap fn (sym fresh_reads) ∙ q)
          (record { balance = w.balance; others = λ j ne. w.others j ne ∙ fresh_others j ne }) ok

  str_eq_refl : (t : String) → str_eq t t ≡ true
  str_eq_refl t = (eq_iff t t).1 refl

  create_row-Mutated :
      (symbol : String) (decimals : ℕ) (db : Database)
      → TableOk db.next_id db.rows
      → find_row k db.rows ≡ none
      → Mutated faults k fn db.rows
          (create_row faults k symbol decimals fn db).1
          (create_row faults k symbol decimals fn db).0
  unfolding create_row find_id is_of
  create_row-Mutated symbol decimals db ok missing = elim (Bool-cases (faults db.calls)) [
    | inl fault ↦ rw (create_row, fault) (broken db.calls fault)
    | inr fine ↦ elim (Bool-cases (faults (db.calls + 1))) [
      | inl fault ↦ rw (create_row, fine, fault) (broken (db.calls + 1) fault)
      | inr fine' ↦
          rw (create_row, fine, fine', same_id db.next_id)
            (fresh-Mutated fresh db.rows mine refl missing _
              (write_row-Mutated fresh after grown (found_fresh fresh db.rows mine refl missing)))
    ]
  ]
    where
      fresh : AccountBalance
      fresh = record {
        id = db.next_id;
        user_id = k.user_id;
        chain_id = k.chain_id;
        token_address = k.token_key;
        symbol = symbol;
        decimals = decimals;
        available = some (pos 0);
        locked = some (pos 0);
      }

      same_id : (n : ℕ) → (n == n) ≡ true
      same_id n = ground arith

      mine : is_of k fresh ≡ true
      mine = rw (is_of, str_eq_refl k.user_id, str_eq_refl k.token_key, same_id k.chain_id) refl

      after : Database
      after = record { rows = fresh ∷ db.rows; next_id = db.next_id + 1; calls = db.calls + 1 + 1 }

      grown : TableOk after.next_id after.rows
      grown = record {
        keyed = (omega arith, ok.keyed);
        funded = (record { amount = 0; is_amount = refl }, ok.funded);
      }

  pub mutate-Mutated :
      (symbol : String) (decimals : ℕ) (db : Database)
      → TableOk db.next_id db.rows
      → Mutated faults k fn db.rows
          (mutate_within faults k symbol decimals fn db).1
          (mutate_within faults k symbol decimals fn db).0
  unfolding mutate_within
  mutate-Mutated symbol decimals db ok = elim (Bool-cases (faults db.calls)) [
    | inl fault ↦ rw (mutate_within, fault) (broken db.calls fault)
    | inr fine ↦ elim (Option-cases (find_row k db.rows)) [
      | inl missing ↦
          rw (mutate_within, fine, missing)
            (create_row-Mutated symbol decimals (called db) ok missing)
      | inr (row, there) ↦
          rw (mutate_within, fine, there) (write_row-Mutated row (called db) ok there)
    ]
  ]
