-- ===== src/Farm/Budget.antt =====
-- That no reward stream of backend/services/farm_service.go emits more than was funded, whatever the
-- calls of accrueStake and the fundings, and whichever calls of the database fail.
use tiger_swap.Prelude.{ℕ, Bool, List, [], ◌∷◌, Option, none, some}
use tiger_swap.Prelude.Int.{ℤ}
use tiger_swap.Farm.Accrual.{FarmPool, FarmTables, FarmEnv, FarmAction, accrue_stake, fund_reward}
use tiger_swap.Farm.Escrows.{AllFunded, IsSound}
use tiger_swap.Farm.Accruing.{Ends, AlwaysSound, accrue_stake-AlwaysSound}
use tiger_swap.Farm.Raising.{fund_reward-AlwaysSound}

-- The two transactions that move a stream: of a stake with its boosted amounts at a time, or of a
-- reward's id and an amount.
pub data FarmCall : Type 0 where
  accrue : FarmPool → ℕ → ℤ → ℤ → ℕ → FarmCall
  fund : ℕ → ℕ → FarmCall

unfoldable pub perform : FarmEnv → FarmCall → FarmAction Bool
unfolding accrue_stake fund_reward
perform env (accrue farm stake_id old_effective new_effective now) =
    accrue_stake env farm stake_id old_effective new_effective now
perform env (fund id amount) = fund_reward env id amount

-- gorm's Transaction.
unfoldable pub committed : FarmTables → Option Bool × FarmTables → FarmTables
committed s (none, t) = record s { calls = t.calls }
committed s (some a, t) = t

unfoldable pub run : FarmEnv → List FarmCall → FarmTables → FarmTables
unfolding perform committed
run env [] s = s
run env (c ∷ cs) s = run env cs (committed s (perform env c s))

perform-AlwaysSound :
    (env : FarmEnv) (c : FarmCall) (s : FarmTables)
    → IsSound s.rewards
    → AlwaysSound (perform env c s)
unfolding perform
perform-AlwaysSound env (accrue farm stake_id old_effective new_effective now) s h =
    accrue_stake-AlwaysSound env farm stake_id old_effective new_effective now s h
perform-AlwaysSound env (fund id amount) s h = fund_reward-AlwaysSound env id amount s h

committed-IsSound :
    (s : FarmTables) (x : Option Bool × FarmTables)
    → IsSound s.rewards
    → AlwaysSound x
    → IsSound (committed s x).rewards
unfolding committed AlwaysSound Ends
committed-IsSound s (none, t) h k = h
committed-IsSound s (some a, t) h k = k

-- In tables where every stream has distributed no more than its escrow, and rows of one id have one
-- escrow, every stream has distributed no more than its escrow after any calls of accrueStake and of
-- the escrow update of FundFarmReward, whichever calls of the database fail.
pub run-AllFunded :
    (env : FarmEnv) (calls : List FarmCall) (s : FarmTables)
    → IsSound s.rewards
    → AllFunded (run env calls s).rewards
unfolding run
run-AllFunded env [] s h = h.all_funded
run-AllFunded env (c ∷ cs) s h =
    run-AllFunded env cs _ (committed-IsSound s (perform env c s) h (perform-AlwaysSound env c s h))
