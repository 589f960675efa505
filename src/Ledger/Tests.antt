-- ===== src/Ledger/Tests.antt =====
-- A table with one account, and the theorems at moves of it.
use tiger_swap.Prelude.{ℕ, ◌≡◌, refl, ◌⊎◌, Bool, true, false, List, [], ◌∷◌, some, arith, ◌==◌}
use tiger_swap.Prelude.Int.{pos, negsuc, ◌+ℤ◌, ◌-ℤ◌, ◌≤ℤ◌, ltb_ℤ}
use tiger_swap.Ledger.{Database, Account, account, available, insufficient_balance, credit, debit}
use tiger_swap.Ledger.Rows.{TableOk}
use tiger_swap.Ledger.Outcomes.{Failed, Moved, credit_outcomes, debit_outcomes}
use tiger_swap.Ledger.Runs.{
  Move, crediting, debiting, perform_all, empty_database, run_never_negative,
}

abbrev ann : Account
ann = account (λ t. t) "ann" 1 "0xaa"

abbrev bob : Account
bob = account (λ t. t) "bob" 1 ""

-- The database call with this number fails.
abbrev faults : ℕ → Bool
faults n = n == 2

abbrev funded : Database
funded = record {
  rows =
      record {
        id = 0;
        user_id = "ann";
        chain_id = 1;
        token_address = "0xaa";
        symbol = "TGR";
        decimals = 18;
        available = some (pos 70);
        locked = some (pos 0);
      }
      ∷ [];
  next_id = 1;
  calls = 5;
}

funded-TableOk : TableOk funded.next_id funded.rows
funded-TableOk = record {
  keyed = (omega arith, tt);
  funded = (record { amount = 70; is_amount = refl }, tt);
}

credit_outcomes_example :
    Failed faults funded (credit faults bob "TGR" 18 (some (pos 9)) funded)
    ⊎ Moved bob
        (available bob funded.rows +ℤ pos 9)
        funded
        (credit faults bob "TGR" 18 (some (pos 9)) funded)
credit_outcomes_example = credit_outcomes faults bob "TGR" 18 9 funded (omega arith) funded-TableOk

debit_outcomes_example :
    Failed faults funded (debit faults ann (some (pos 71)) funded)
    ⊎ (((debit faults ann (some (pos 71)) funded).0 ≡ some insufficient_balance)
        × ((debit faults ann (some (pos 71)) funded).1.rows ≡ funded.rows)
        × (ltb_ℤ (available ann funded.rows) (pos 71) ≡ true))
    ⊎ ((ltb_ℤ (available ann funded.rows) (pos 71) ≡ false)
        × Moved ann
            (available ann funded.rows -ℤ pos 71)
            funded
            (debit faults ann (some (pos 71)) funded))
debit_outcomes_example = debit_outcomes faults ann 71 funded (omega arith) funded-TableOk

abbrev moves : List Move
moves =
    crediting ann "TGR" 18 (some (pos 5))
    ∷ debiting bob (some (pos 1))
    ∷ debiting ann (some (negsuc 3))
    ∷ []

run_never_negative_example :
    TableOk
      (perform_all faults moves empty_database).next_id
      (perform_all faults moves empty_database).rows
    × (pos 0 ≤ℤ available ann (perform_all faults moves empty_database).rows)
run_never_negative_example = run_never_negative faults moves ann
