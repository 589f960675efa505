-- ===== src/Farm/Accrual.antt =====
-- The accounting of backend/services/farm_service.go on its tables, inside a transaction: advanceReward,
-- loadOrCreateStakeReward, accrueStake and the escrow update of FundFarmReward. `faults` says which calls
-- of the database fail; an error ends the run with none, and the caller's transaction is rolled back. A
-- table of rewards stands in the order of creation.
use tiger_swap.Prelude.{
  ℕ, ◌+◌, Bool, true, false, ◌&&◌, List, [], ◌∷◌, map, Option, none, some, ◌==◌, if◌then◌else◌,
  String,
}
use tiger_swap.Prelude.Int.{ℤ, pos, ◌+ℤ◌, ◌*ℤ◌}
use tiger_swap.Ledger.{read_amount}
use tiger_swap.Governance.Power.{div_floor}
use tiger_swap.Farm.{
  FarmReward, FarmStakeReward, acc_scale, pending_for, until, checkpoint_at, stands, advanced,
}

-- `active` says that the status is models.FarmStatusActive.
pub record FarmPool : Type 0 where
  pub id : ℕ
  pub chain_id : ℕ
  pub token_address : String
  pub token_symbol : String
  pub token_decimals : ℕ
  pub total_staked : Option ℤ
  pub start_time : ℕ
  pub end_time : ℕ
  pub active : Bool

pub record FarmTables : Type 0 where
  pub rewards : List FarmReward
  pub checkpoints : List FarmStakeReward
  pub next_id : ℕ
  pub calls : ℕ

-- `seconds` is int64(d.Seconds()) of a duration that is not negative.
pub record FarmEnv : Type 0 where
  pub faults : ℕ → Bool
  pub seconds : ℕ → ℕ

abbrev pub FarmAction : Type 0 → Type 0
FarmAction A = FarmTables → Option A × FarmTables

abbrev pub called : FarmTables → FarmTables
called s = record s { calls = s.calls + 1 }

unfoldable pub and_then : {A B : Type 0} → FarmAction A → (A → FarmAction B) → FarmAction B
and_then m f s = let (r, t) = m s in elim r [ none ↦ (none, t) | some a ↦ f a t ]

-- One call that reads.
unfoldable pub read_rows : {A : Type 0} → FarmEnv → (FarmTables → A) → FarmAction A
read_rows env f s = (if env.faults s.calls then none else some (f s), called s)

-- One call that writes, with the answer.
unfoldable pub write_rows : {A : Type 0} → FarmEnv → A → (FarmTables → FarmTables) → FarmAction A
write_rows env a f s = if env.faults s.calls then (none, called s) else (some a, called (f s))

-- WHERE farm_id = ?
unfoldable pub rewards_of : ℕ → List FarmReward → List FarmReward
rewards_of farm_id [] = []
rewards_of farm_id (r ∷ rs) =
    let rest = rewards_of farm_id rs in if r.farm_id == farm_id then r ∷ rest else rest

-- The columns of the update: the time alone, or all three.
unfoldable pub saved : Bool → FarmReward → FarmReward → FarmReward
saved time_only new row =
    if row.id == new.id
    then if time_only then record row { last_update_time = new.last_update_time } else record row {
      acc_reward_per_share = new.acc_reward_per_share;
      total_distributed = new.total_distributed;
      last_update_time = new.last_update_time;
    }
    else row

unfoldable pub save_reward : Bool → FarmReward → FarmTables → FarmTables
unfolding saved
save_reward time_only new s = record s { rewards = map (saved time_only new) s.rewards }

unfoldable pub advance_reward : FarmEnv → FarmReward → ℤ → ℕ → ℕ → FarmAction FarmReward
unfolding advanced stands checkpoint_at until save_reward write_rows
advance_reward env reward total_staked now end_time =
    let new = advanced env.seconds reward total_staked now end_time in
    let checkpoint = checkpoint_at reward.last_update_time (until now end_time) in
    write_rows env new (save_reward (stands reward.last_update_time checkpoint) new)

unfoldable pub find_checkpoint : ℕ → ℕ → List FarmStakeReward → Option FarmStakeReward
find_checkpoint stake_id reward_id [] = none
find_checkpoint stake_id reward_id (c ∷ cs) =
    if c.stake_id == stake_id && c.reward_id == reward_id
    then some c
    else find_checkpoint stake_id reward_id cs

unfoldable pub new_checkpoint : ℕ → ℕ → ℕ → FarmStakeReward
new_checkpoint id stake_id reward_id = record {
  id = id;
  stake_id = stake_id;
  reward_id = reward_id;
  debt = some (pos 0);
  accrued = some (pos 0);
  claimed = some (pos 0);
}

-- A fresh checkpoint stands first.
unfoldable pub add_checkpoint : FarmStakeReward → FarmTables → FarmTables
add_checkpoint c s = record s { checkpoints = c ∷ s.checkpoints; next_id = s.next_id + 1 }

-- Creates the row that is missing; the flag says that it is fresh.
unfoldable pub create_missing :
    FarmEnv → ℕ → ℕ → Option FarmStakeReward → FarmAction (FarmStakeReward × Bool)
unfolding new_checkpoint add_checkpoint write_rows
create_missing env stake_id reward_id (some sr) s = (some (sr, false), s)
create_missing env stake_id reward_id none s =
    let fresh = new_checkpoint s.next_id stake_id reward_id in
    write_rows env (fresh, true) (add_checkpoint fresh) s

unfoldable pub load_or_create_stake_reward : FarmEnv → ℕ → ℕ → FarmAction (FarmStakeReward × Bool)
unfolding find_checkpoint create_missing read_rows and_then
load_or_create_stake_reward env stake_id reward_id =
    and_then (read_rows env (λ s. find_checkpoint stake_id reward_id s.checkpoints))
      (create_missing env stake_id reward_id)

-- A fresh checkpoint takes the new debt; any other also adds what is pending.
unfoldable pub settled : Bool → ℤ → ℤ → ℤ → FarmStakeReward → FarmStakeReward
unfolding read_amount pending_for div_floor
settled created old_effective new_effective acc sr =
    let next_debt = div_floor (new_effective *ℤ acc) acc_scale in
    if created then record sr { debt = some next_debt } else record sr {
      debt = some next_debt;
      accrued =
          some (read_amount sr.accrued +ℤ pending_for old_effective acc (read_amount sr.debt));
    }

unfoldable pub save_checkpoint : FarmStakeReward → FarmTables → FarmTables
save_checkpoint c s = record s {
  checkpoints = map (λ row. if row.id == c.id then c else row) s.checkpoints;
}

unfoldable pub settle_stake :
    FarmEnv → ℤ → ℤ → FarmReward → FarmStakeReward × Bool → FarmAction Bool
unfolding settled save_checkpoint write_rows read_amount
settle_stake env old_effective new_effective reward loaded = write_rows env true (
    save_checkpoint (
      settled loaded.1 old_effective new_effective (read_amount reward.acc_reward_per_share)
        loaded.0))

-- One round of the loop.
unfoldable pub accrue_reward : FarmEnv → FarmPool → ℕ → ℤ → ℤ → ℕ → FarmReward → FarmAction Bool
unfolding and_then advance_reward load_or_create_stake_reward settle_stake read_amount
accrue_reward env farm stake_id old_effective new_effective now reward =
    and_then (advance_reward env reward (read_amount farm.total_staked) now farm.end_time) (λ new.
      and_then (load_or_create_stake_reward env stake_id new.id)
        (settle_stake env old_effective new_effective new))

unfoldable pub accrue_rewards :
    FarmEnv → FarmPool → ℕ → ℤ → ℤ → ℕ → List FarmReward → FarmAction Bool
unfolding and_then accrue_reward
accrue_rewards env farm stake_id old_effective new_effective now [] s = (some true, s)
accrue_rewards env farm stake_id old_effective new_effective now (r ∷ rs) s =
    and_then (accrue_reward env farm stake_id old_effective new_effective now r)
      (λ _. accrue_rewards env farm stake_id old_effective new_effective now rs) s

unfoldable pub accrue_stake : FarmEnv → FarmPool → ℕ → ℤ → ℤ → ℕ → FarmAction Bool
unfolding and_then read_rows rewards_of accrue_rewards
accrue_stake env farm stake_id old_effective new_effective now =
    and_then (read_rows env (λ s. rewards_of farm.id s.rewards))
      (accrue_rewards env farm stake_id old_effective new_effective now)

unfoldable pub find_reward : ℕ → List FarmReward → Option FarmReward
find_reward id [] = none
find_reward id (r ∷ rs) = if r.id == id then some r else find_reward id rs

unfoldable pub funded : ℕ → ℤ → FarmReward → FarmReward
funded id total row = record row {
  total_reward = if row.id == id then some total else row.total_reward;
}

-- The escrow update of FundFarmReward, on the reward that it read.
unfoldable pub raise_budget : FarmEnv → ℕ → ℕ → Option FarmReward → FarmAction Bool
unfolding funded write_rows read_amount
raise_budget env id amount none s = (none, s)
raise_budget env id amount (some locked) s =
    write_rows env true
      (λ t. record t {
        rewards = map (funded id (read_amount locked.total_reward +ℤ pos amount)) t.rewards;
      })
      s

-- The part of FundFarmReward's transaction that is not the debit.
unfoldable pub fund_reward : FarmEnv → ℕ → ℕ → FarmAction Bool
unfolding and_then read_rows find_reward raise_budget
fund_reward env id amount =
    and_then (read_rows env (λ s. find_reward id s.rewards)) (raise_budget env id amount)
