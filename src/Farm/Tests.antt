-- ===== src/Farm/Tests.antt =====
-- A farm of backend/services/farm_service.go with one reward stream, worked out.
use tiger_swap.Prelude.{
  ℕ, ◌+◌, ◌-◌, ◌*◌, ◌/◌, ◌≡◌, refl, true, false, List, [], ◌∷◌, Option, none, some, arith, String,
}
use tiger_swap.Prelude.Int.{ℤ, pos, ◌+ℤ◌, ◌-ℤ◌, ◌*ℤ◌, ◌≤ℤ◌, positive}
use tiger_swap.Ledger.{
  read_amount, find_row, is_of, normalize_token_address, update_available, find_id,
}
use tiger_swap.Governance.Power.{second, div_floor}
use tiger_swap.Farm.{
  FarmReward, boost_bps_for, effective_amount, pending_for, reward_step, advanced, elapsed_seconds,
  until,
}
use tiger_swap.Farm.Accrual.{FarmPool, FarmTables, FarmEnv, accrue_stake}
use tiger_swap.Farm.Staking.{FarmSite, StakeEnv, stake, unstake}
use tiger_swap.Farm.Stakes.{staked_in, IsStaked}
use tiger_swap.Farm.Serving.{StakeRequest, ask_stake, ask_unstake, serve, serve-IsStaked}
use tiger_swap.Governance.Amounts.{
  codes, is_space, is_digit, trim_space, trim_left, set_string, read_nat, read_digits,
}
use tiger_swap.Farm.Emission.{Emitted, since, reward_step-Emitted}
use tiger_swap.Farm.Rate.{IsSeconds, IsPaced, advance_all, advance_all-IsPaced}
use tiger_swap.Farm.Sharing.{owed, staked_by, owed_all, owed_within, boost_overpays}
use tiger_swap.Farm.Escrows.{AllFunded, IsSound}
use tiger_swap.Farm.Budget.{accrue, fund, perform, run, run-AllFunded}

-- 3 a second of an escrow of 1000, of which 100 were distributed.
abbrev stream : FarmReward
stream = record {
  id = 7;
  farm_id = 1;
  rate_per_second = some (pos 3);
  acc_reward_per_share = some (pos 500);
  last_update_time = some (10 * second);
  total_reward = some (pos 1000);
  total_distributed = some (pos 100);
}

abbrev env : FarmEnv
env = record { faults = λ n. false; seconds = λ d. d / second }

abbrev farm : FarmPool
farm = record {
  id = 1;
  chain_id = 1;
  token_address = "lp";
  token_symbol = "LP";
  token_decimals = 18;
  total_staked = some (pos 90);
  start_time = 0;
  end_time = 1000 * second;
  active = true;
}

abbrev tables : FarmTables
tables = record { rewards = stream ∷ []; checkpoints = []; next_id = 9; calls = 0 }

-- 20 seconds emit 60.
step_20s :
    reward_step env.seconds stream (pos 90) (30 * second) (1000 * second)
    ≡ record { acc = pos 666_666_666_666_667_166; distributed = pos 160; elapsed = 20 }
unfolding reward_step ◌-ℤ◌ ◌+ℤ◌
step_20s = refl

-- The escrow ends the emission.
step_out :
    reward_step env.seconds stream (pos 90) (900 * second) (1000 * second)
    ≡ record { acc = pos 10_000_000_000_000_000_500; distributed = pos 1000; elapsed = 890 }
unfolding reward_step ◌-ℤ◌ ◌+ℤ◌
step_out = refl

-- A clock that goes back emits nothing.
step_back : advanced env.seconds stream (pos 90) (5 * second) (1000 * second) ≡ stream
unfolding advanced
step_back = refl

boost_too_low : boost_bps_for (some (λ u a. some (pos 5000))) "ann" (pos 90) ≡ pos 10_000
unfolding boost_bps_for
boost_too_low = refl

-- A stake of 90, the only one, at the highest boost.
overpaid : owed (pos 25_000) 90 (pos 500) (pos 666_666_666_666_667_166) ≡ pos 150
unfolding owed effective_amount pending_for ◌-ℤ◌ ◌*ℤ◌
overpaid = refl

-- Two rounds of one stake: the first seeds the debt, the second settles 60.
abbrev settled_twice : FarmTables
settled_twice =
    run env
      (accrue farm 4 (pos 90) (pos 90) (10 * second)
        ∷ accrue farm 4 (pos 90) (pos 90) (30 * second)
        ∷ [])
      tables

accrued_twice :
    settled_twice.checkpoints
    ≡ record {
      id = 9;
      stake_id = 4;
      reward_id = 7;
      debt = some (pos 60);
      accrued = some (pos 60);
      claimed = some (pos 0);
    }
      ∷ []
unfolding run perform accrue_stake ◌-ℤ◌ ◌+ℤ◌ ◌*ℤ◌ div_floor
accrued_twice = refl

stream-IsSound : IsSound tables.rewards
unfolding read_amount
stream-IsSound = record {
  all_funded = (
    record {
      escrow = 1000;
      distributed = 100;
      is_escrow = refl;
      is_distributed = refl;
      within = omega arith;
    },
    tt,
  );
  agree = ((λ _. refl, tt), tt);
}

run-AllFunded_example :
    AllFunded
      (run env
        (accrue farm 4 (pos 90) (pos 225) (900 * second)
          ∷ fund 7 50
          ∷ accrue farm 4 (pos 225) (pos 0) (950 * second)
          ∷ [])
        tables).rewards
run-AllFunded_example =
    run-AllFunded env
      (accrue farm 4 (pos 90) (pos 225) (900 * second)
        ∷ fund 7 50
        ∷ accrue farm 4 (pos 225) (pos 0) (950 * second)
        ∷ [])
      tables stream-IsSound

-- Seconds that are rounded up just below the next second, as int64(d.Seconds()) does for long durations.
abbrev rounded_up : ℕ → ℕ
rounded_up d = (d + 953) / second

rounded_up-IsSeconds : IsSeconds rounded_up
rounded_up-IsSeconds d h = omega arith

advance_all-IsPaced_example :
    IsPaced 3 stream
      (advance_all rounded_up
        (1000 * second)
        ((pos 90, 30 * second) ∷ (pos 90, 5 * second) ∷ (pos 40, 36 * second - 500) ∷ [])
        stream)
      (10 * second)
advance_all-IsPaced_example =
    advance_all-IsPaced rounded_up (1000 * second)
      ((pos 90, 30 * second) ∷ (pos 90, 5 * second) ∷ (pos 40, 36 * second - 500) ∷ []) stream
      (10 * second) rounded_up-IsSeconds refl

reward_step-Emitted_example :
    Emitted stream 90 20 (reward_step env.seconds stream (pos 90) (30 * second) (1000 * second))
unfolding since elapsed_seconds until
reward_step-Emitted_example =
    reward_step-Emitted env.seconds stream (pos 90) (30 * second) (1000 * second)

owed_within_example :
    read_amount stream.total_distributed
      +ℤ pos (
          owed_all
            (50 ∷ 30 ∷ 10 ∷ [])
            (pos 500)
            (reward_step env.seconds stream (pos 90) (30 * second) (1000 * second)).acc)
    ≤ℤ (reward_step env.seconds stream (pos 90) (30 * second) (1000 * second)).distributed +ℤ pos 2
unfolding read_amount staked_by
owed_within_example =
    owed_within env.seconds stream (pos 90) (30 * second) (1000 * second) 500 (50 ∷ 30 ∷ 10 ∷ [])
      refl (omega arith)

abbrev doubled : String → ℤ → Option ℤ
doubled user amount = some (pos 20_000)

boost_overpays_example :
    pos (2 * 60)
    ≤ℤ owed
        (boost_bps_for (some doubled) "ann" (pos 90))
        90
        (pos 500)
        (reward_step env.seconds stream (pos 90) (30 * second) (1000 * second)).acc
      +ℤ pos 1
unfolding read_amount ◌+ℤ◌ reward_step ◌-ℤ◌
boost_overpays_example =
    boost_overpays env.seconds doubled "ann" stream (30 * second) (1000 * second) 500 90 2 60 refl
      refl (omega arith) (omega arith) (omega arith) refl

abbrev stake_env : StakeEnv
stake_env = record {
  faults = λ n. false;
  ledger_faults = λ n. false;
  farm_env = env;
  lower = λ t. t;
  boost = none;
}

-- The farm with a stake of 90; bob has 40 of its token.
abbrev site : FarmSite
site = record {
  farms = farm ∷ [];
  stakes = record { id = 4; farm_id = 1; user_id = "ann"; amount = some (pos 90) } ∷ [];
  next_stake = 5;
  accounting = tables;
  ledger = record {
    rows =
        record {
          id = 0;
          user_id = "bob";
          chain_id = 1;
          token_address = "lp";
          symbol = "LP";
          decimals = 18;
          available = some (pos 40);
          locked = some (pos 0);
        }
        ∷ [];
    next_id = 1;
    calls = 0;
  };
  calls = 0;
}

abbrev requests : List StakeRequest
requests =
    ask_stake (some 1) (some (codes "30")) (some "bob") (20 * second)
    ∷ ask_unstake (some 1) (some (codes "50")) (some "ann") (30 * second)
    ∷ ask_stake (some 1) (some (codes "30")) (some "bob") (40 * second)
    ∷ []

-- Bob's second request fails for want of tokens.
served : staked_in 1 (serve stake_env requests site).stakes ≡ 70
unfolding serve stake unstake staked_in is_space is_digit ◌-ℤ◌ ◌+ℤ◌ ◌*ℤ◌ div_floor trim_space
    trim_left set_string read_nat read_digits positive find_row is_of normalize_token_address
    update_available find_id
served = refl

site-IsStaked : IsStaked site.farms site.stakes site.next_stake
unfolding staked_in read_amount
site-IsStaked = record { stakes = (omega arith, refl, tt); totals = (refl, tt) }

serve-IsStaked_example :
    IsStaked
      (serve stake_env requests site).farms
      (serve stake_env requests site).stakes
      (serve stake_env requests site).next_stake
serve-IsStaked_example = serve-IsStaked stake_env requests site site-IsStaked
