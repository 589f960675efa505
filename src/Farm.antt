-- ===== src/Farm.antt =====
-- The reward accounting of backend/services/farm_service.go over the rows of backend/models/farming.go:
-- rewardStep, advanceReward, boostBpsFor, effectiveAmount and pendingFor. A time is in nanoseconds of
-- Unix time, `none` the zero time; a text column holds the integer that SetString reads from it, `none`
-- where it reads none.
mod Accrual
mod Arithmetic
mod Emission
mod Rate
mod Sharing
mod Escrows
mod Accruing
mod Raising
mod Budget
mod Staking
mod Stakes
mod Steps
mod Staked
mod Serving
mod Tests
use tiger_swap.Prelude.{
  ℕ, ◌+◌, ◌-◌, ◌*◌, ◌/◌, Bool, true, false, not, ◌||◌, Option, none, some, ltb, leb, ◌==◌,
  if◌then◌else◌, String,
}
use tiger_swap.Prelude.Int.{ℤ, pos, negsuc, ◌+ℤ◌, ◌-ℤ◌, ◌*ℤ◌, ltb_ℤ, pos_part}
use tiger_swap.Ledger.{read_amount}
use tiger_swap.Governance.Power.{div_floor, sub_time}

pub record FarmReward : Type 0 where
  pub id : ℕ
  pub farm_id : ℕ
  pub rate_per_second : Option ℤ
  pub acc_reward_per_share : Option ℤ
  pub last_update_time : Option ℕ
  pub total_reward : Option ℤ
  pub total_distributed : Option ℤ

pub record FarmStakeReward : Type 0 where
  pub id : ℕ
  pub stake_id : ℕ
  pub reward_id : ℕ
  pub debt : Option ℤ
  pub accrued : Option ℤ
  pub claimed : Option ℤ

-- What rewardStep returns: the accumulator, the distributed total and the elapsed seconds.
pub record RewardStep : Type 0 where
  pub acc : ℤ
  pub distributed : ℤ
  pub elapsed : ℕ

abbrev pub acc_scale : ℕ
acc_scale = 1_000_000_000_000_000_000

abbrev pub base_bps : ℕ
base_bps = 10_000

-- What the boost source answers, `none` for an error or nil; without a source there is no function.
unfoldable pub boost_bps_for : Option (String → ℤ → Option ℤ) → String → ℤ → ℤ
boost_bps_for none user_id amount = pos base_bps
boost_bps_for (some source) user_id amount = elim (source user_id amount) [
  | none ↦ pos base_bps
  | some bps ↦ if not (ltb_ℤ (pos 0) bps) || ltb_ℤ bps (pos base_bps) then pos base_bps else bps
]

unfoldable pub effective_amount : ℤ → ℤ → ℤ
unfolding div_floor
effective_amount amount boost_bps = div_floor (amount *ℤ boost_bps) base_bps

unfoldable pub pending_for : ℤ → ℤ → ℤ → ℤ
unfolding div_floor
pending_for effective acc debt =
    let pending = div_floor (effective *ℤ acc) acc_scale -ℤ debt in
    if ltb_ℤ pending (pos 0) then pos 0 else pending

-- now.After(end): the earlier of the two.
unfoldable pub until : ℕ → ℕ → ℕ
until now end_time = if ltb end_time now then end_time else now

-- int64(now.Sub(last).Seconds()), and 0 where it is not above zero.
unfoldable pub elapsed_seconds : (ℕ → ℕ) → ℕ → ℕ → ℕ
unfolding sub_time
elapsed_seconds seconds now last = if ltb last now then seconds (sub_time now last) else 0

-- The emission of an interval where the guards hold: the rate, cut to the budget.
unfoldable pub emission_of : ℕ → ℕ → ℕ → ℕ
emission_of rate elapsed budget = if ltb budget (rate * elapsed) then budget else rate * elapsed

-- Once a checkpoint is there. A number that is not above zero has no positive part.
unfoldable pub step_from : FarmReward → ℤ → ℕ → RewardStep
unfolding read_amount emission_of
step_from reward total_staked elapsed =
    let acc = read_amount reward.acc_reward_per_share in
    let distributed = read_amount reward.total_distributed in
    let rate = pos_part (read_amount reward.rate_per_second) in
    let budget = pos_part (read_amount reward.total_reward -ℤ distributed) in
    let staked = pos_part total_staked in
    let emission = emission_of rate elapsed budget in
    if elapsed == 0 || staked == 0 || rate == 0 || budget == 0
    then record { acc = acc; distributed = distributed; elapsed = 0 }
    else record {
      acc = acc +ℤ pos (emission * acc_scale / staked);
      distributed = distributed +ℤ pos emission;
      elapsed = elapsed;
    }

unfoldable pub reward_step : (ℕ → ℕ) → FarmReward → ℤ → ℕ → ℕ → RewardStep
unfolding read_amount step_from elapsed_seconds until
reward_step seconds reward total_staked now end_time = elim reward.last_update_time [
  | none ↦ record {
    acc = read_amount reward.acc_reward_per_share;
    distributed = read_amount reward.total_distributed;
    elapsed = 0;
  }
  | some last ↦ step_from reward total_staked (elapsed_seconds seconds (until now end_time) last)
]

-- The time that advanceReward sets: never before the last one.
unfoldable pub checkpoint_at : Option ℕ → ℕ → ℕ
checkpoint_at none now = now
checkpoint_at (some last) now = if ltb now last then last else now

-- LastUpdateTime.IsZero() || checkpoint.Equal(LastUpdateTime)
unfoldable pub stands : Option ℕ → ℕ → Bool
stands none checkpoint = true
stands (some last) checkpoint = checkpoint == last

-- The reward in memory after advanceReward.
unfoldable pub advanced : (ℕ → ℕ) → FarmReward → ℤ → ℕ → ℕ → FarmReward
unfolding checkpoint_at stands reward_step until
advanced seconds reward total_staked now end_time =
    let checkpoint = checkpoint_at reward.last_update_time (until now end_time) in
    let step = reward_step seconds reward total_staked checkpoint end_time in
    if stands reward.last_update_time checkpoint
    then record reward { last_update_time = some checkpoint }
    else record reward {
      acc_reward_per_share = some step.acc;
      total_distributed = some step.distributed;
      last_update_time = some checkpoint;
    }
