-- ===== src/Farm/Emission.antt =====
-- What a step of a reward stream emits: rewardStep of backend/services/farm_service.go.
use tiger_swap.Prelude.{
  ℕ, zero, suc, ◌+◌, ◌*◌, ◌/◌, ◌≤◌, ◌<◌, ◌≡◌, refl, Option, none, some, inl, inr, arith, ◌==◌, ◌||◌,
  Bool, true, false, ltb, if◌then◌else◌, Bool-cases,
}
use tiger_swap.Prelude.Int.{ℤ, pos, ◌+ℤ◌, ◌-ℤ◌, pos_part, int_laws}
use tiger_swap.Ledger.{read_amount}
use tiger_swap.Farm.{
  FarmReward, RewardStep, acc_scale, until, elapsed_seconds, emission_of, step_from, reward_step,
}
use native.Mathlib.Nat.{div-mul-le_self}

-- The budget of a stream.
abbrev pub budget_of : FarmReward → ℕ
budget_of r = pos_part (read_amount r.total_reward -ℤ read_amount r.total_distributed)

abbrev pub rate_of : FarmReward → ℕ
rate_of r = pos_part (read_amount r.rate_per_second)

-- The emission by the rate and the budget, to the stakers by their shares.
pub record Emitted (r : FarmReward) (staked elapsed : ℕ) (step : RewardStep) : Type 0 where
  pub emission : ℕ
  pub gain : ℕ
  pub is_acc : step.acc ≡ read_amount r.acc_reward_per_share +ℤ pos gain
  pub is_distributed : step.distributed ≡ read_amount r.total_distributed +ℤ pos emission
  pub is_emission :
      emission ≡ (if staked == 0 then 0 else emission_of (rate_of r) elapsed (budget_of r))
  pub shared : gain * staked ≤ emission * acc_scale
  pub shared_out : 0 < staked → emission * acc_scale < (gain + 1) * staked

-- One of the guards fails.
abbrev idle : ℕ → ℕ → ℕ → ℕ → Bool
idle elapsed staked rate budget = elapsed == 0 || staked == 0 || rate == 0 || budget == 0

emission_of-idle :
    (elapsed staked rate budget : ℕ)
    → idle elapsed staked rate budget ≡ true
    → 0 ≡ (if staked == 0 then 0 else emission_of rate elapsed budget)
unfolding emission_of
emission_of-idle elapsed staked zero budget h = ground arith
emission_of-idle zero staked (suc rate) budget h = ground arith
emission_of-idle (suc elapsed) staked (suc rate) budget h = ground arith

staked_busy :
    (elapsed staked rate budget : ℕ) → idle elapsed staked rate budget ≡ false → 0 < staked
staked_busy elapsed staked rate budget h = ground arith

emission_of-busy :
    (elapsed staked rate budget : ℕ)
    → idle elapsed staked rate budget ≡ false
    → emission_of rate elapsed budget ≡ (if staked == 0 then 0 else emission_of rate elapsed budget)
emission_of-busy elapsed staked rate budget h = ground arith

pub +ℤ_zero : (a : ℤ) → a ≡ a +ℤ pos 0
+ℤ_zero a = omega int_laws

div-lt : (n d : ℕ) → 0 < d → n < (n / d + 1) * d
div-lt n d h = grind arith

step_from-Emitted :
    (r : FarmReward) (total : ℤ) (elapsed : ℕ)
    → Emitted r (pos_part total) elapsed (step_from r total elapsed)
unfolding step_from
step_from-Emitted r total elapsed =
    elim (Bool-cases (idle elapsed (pos_part total) (rate_of r) (budget_of r))) [
      | inl quiet ↦ rw quiet (record {
        emission = 0;
        gain = 0;
        is_acc = +ℤ_zero _;
        is_distributed = +ℤ_zero _;
        is_emission = emission_of-idle elapsed (pos_part total) (rate_of r) (budget_of r) quiet;
        shared = omega arith;
        shared_out = λ h. omega arith;
      })
      | inr busy ↦
          let e = emission_of (rate_of r) elapsed (budget_of r) in
          rw busy (record {
            emission = e;
            gain = e * acc_scale / pos_part total;
            is_acc = refl;
            is_distributed = refl;
            is_emission = emission_of-busy elapsed (pos_part total) (rate_of r) (budget_of r) busy;
            shared = div-mul-le_self (e * acc_scale) (pos_part total);
            shared_out = λ h. div-lt (e * acc_scale) (pos_part total) h;
          })
    ]

-- The seconds from the checkpoint to a time or the farm's end, and 0 before the first checkpoint.
unfoldable pub since : (ℕ → ℕ) → Option ℕ → ℕ → ℕ → ℕ
since seconds none now end_time = 0
since seconds (some last) now end_time = elapsed_seconds seconds (until now end_time) last

-- A step by what the row's checkpoint is.
step_at :
    (seconds : ℕ → ℕ) (r : FarmReward) (total : ℤ) (now end_time : ℕ) (last : Option ℕ)
    → Emitted r (pos_part total) (since seconds last now end_time) (elim last [
      | none ↦ record {
        acc = read_amount r.acc_reward_per_share;
        distributed = read_amount r.total_distributed;
        elapsed = 0;
      }
      | some l ↦ step_from r total (elapsed_seconds seconds (until now end_time) l)
    ])
unfolding since
step_at seconds r total now end_time none = record {
  emission = 0;
  gain = 0;
  is_acc = +ℤ_zero _;
  is_distributed = +ℤ_zero _;
  is_emission = emission_of-idle 0 (pos_part total) (rate_of r) (budget_of r) refl;
  shared = omega arith;
  shared_out = λ h. omega arith;
}
step_at seconds r total now end_time (some last) =
    step_from-Emitted r total (elapsed_seconds seconds (until now end_time) last)

-- A step emits by the rate and the time since the checkpoint, the farm's end at most, cut to the budget,
-- and nothing where no one has staked. The accumulator rises by the emission's share for a staked unit,
-- rounded down.
pub reward_step-Emitted :
    (seconds : ℕ → ℕ) (r : FarmReward) (total : ℤ) (now end_time : ℕ)
    → Emitted r
        (pos_part total)
        (since seconds r.last_update_time now end_time)
        (reward_step seconds r total now end_time)
unfolding reward_step since
reward_step-Emitted seconds r total now end_time =
    step_at seconds r total now end_time r.last_update_time

-- Both parts of the cut.
pub emission-le :
    (r : FarmReward) (staked elapsed emission : ℕ)
    → emission ≡ (if staked == 0 then 0 else emission_of (rate_of r) elapsed (budget_of r))
    → (emission ≤ rate_of r * elapsed) × (emission ≤ budget_of r)
unfolding emission_of
emission-le r staked elapsed emission e = cut staked (rate_of r * elapsed) (budget_of r) e
  where
    cut :
        (a b c : ℕ)
        → emission ≡ (if a == 0 then 0 else if ltb c b then c else b)
        → (emission ≤ b) × (emission ≤ c)
    cut a b c e = ground arith
