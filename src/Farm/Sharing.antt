-- ===== src/Farm/Sharing.antt =====
-- What the stakers of a farm are owed of one step of a reward stream: rewardStep, effectiveAmount,
-- pendingFor and the debt of accrueStake in backend/services/farm_service.go. The shares are of boosted
-- amounts, and the accumulator is by amounts that are not.
use native.Mathlib.Nat.{lt_of_mul-lt-mul_right}
use tiger_swap.Prelude.{
  ℕ, zero, suc, ◌+◌, ◌-◌, ◌*◌, ◌/◌, ◌≤◌, ◌<◌, ◌≡◌, List, [], ◌∷◌, Option, none, some, arith, String,
  ap, sym, ◌∙◌, length,
}
use tiger_swap.Prelude.Int.{ℤ, pos, ◌+ℤ◌, ◌*ℤ◌, ◌≤ℤ◌, pos_part, int_laws}
use tiger_swap.Ledger.{read_amount}
use tiger_swap.Governance.Power.{div_floor}
use tiger_swap.Governance.Decay.{mul_mono, pos-sum}
use tiger_swap.Farm.{
  FarmReward, acc_scale, base_bps, boost_bps_for, effective_amount, pending_for, reward_step,
}
use tiger_swap.Farm.Arithmetic.{share_lt, share_ge, pending_for-gained, effective_amount-boosted}
use tiger_swap.Farm.Emission.{reward_step-Emitted}

-- What is pending at `acc` for an amount whose debt was taken at `before`, at this boost.
unfoldable pub owed : ℤ → ℕ → ℤ → ℤ → ℤ
unfolding effective_amount pending_for div_floor
owed boost amount before acc =
    let effective = effective_amount (pos amount) boost in
    pending_for effective acc (div_floor (effective *ℤ before) acc_scale)

-- The same of several stakers that no boost source is wired for.
pub owed_all : List ℕ → ℤ → ℤ → ℕ
owed_all [] before acc = 0
owed_all (a ∷ others) before acc =
    pos_part (owed (boost_bps_for none "" (pos a)) a before acc) + owed_all others before acc

unfoldable pub staked_by : List ℕ → ℕ
staked_by [] = 0
staked_by (a ∷ others) = a + staked_by others

owed_boosted :
    (a k c g : ℕ)
    → owed (pos (k * base_bps)) a (pos c) (pos (c + g))
      ≡ pos (k * a * (c + g) / acc_scale - k * a * c / acc_scale)
unfolding owed
owed_boosted a k c g = rw (effective_amount-boosted a k) (pending_for-gained (k * a) c g)

owed_plain :
    (a c g : ℕ)
    → owed (boost_bps_for none "" (pos a)) a (pos c) (pos (c + g))
      ≡ pos (a * (c + g) / acc_scale - a * c / acc_scale)
unfolding boost_bps_for
owed_plain a c g =
    owed_boosted a 1 c g ∙ ap (λ n. pos (n * (c + g) / acc_scale - n * c / acc_scale)) (omega arith)

owed_all-bound :
    (c g : ℕ) (amounts : List ℕ)
    → owed_all amounts (pos c) (pos (c + g)) * acc_scale + length amounts
      ≤ staked_by amounts * g + length amounts * acc_scale
unfolding owed_all staked_by
owed_all-bound c g [] = omega arith
owed_all-bound c g (a ∷ others) =
    let rest = owed_all-bound c g others in
    let one = share_lt acc_scale a c g (omega arith) in
    rw (owed_plain a c g) (grind (arith, rest, one))

owed_all-units :
    (owes emission count s : ℕ)
    → 0 < s
    → owes * s + count ≤ emission * s + count * s
    → owes ≤ emission + (count - 1)
owed_all-units owes emission zero s h k =
    let least : owes * s < (emission + 1) * s = grind (arith, k, h) in
    omega (arith, lt_of_mul-lt-mul_right s least)
owed_all-units owes emission (suc count) s h k =
    let least : owes * s < (emission + suc count) * s = grind (arith, k) in
    omega (arith, lt_of_mul-lt-mul_right s least)

-- Without a boost source the stakers of a farm, whose amounts are together no more than the recorded
-- total, are owed of one step no more than it emits and, for rounding, one unit for each staker but one.
pub owed_within :
    (seconds : ℕ → ℕ) (r : FarmReward) (total : ℤ) (now end_time acc : ℕ) (amounts : List ℕ)
    → read_amount r.acc_reward_per_share ≡ pos acc
    → staked_by amounts ≤ pos_part total
    → let step = reward_step seconds r total now end_time in
      read_amount r.total_distributed +ℤ pos (owed_all amounts (pos acc) step.acc)
      ≤ℤ step.distributed +ℤ pos (length amounts - 1)
owed_within seconds r total now end_time acc amounts accumulated held =
    let f = reward_step-Emitted seconds r total now end_time in
    let gained : (reward_step seconds r total now end_time).acc ≡ pos (acc + f.gain) =
      f.is_acc ∙ ap (λ a. a +ℤ pos f.gain) accumulated ∙ pos-sum acc f.gain in
    let bound = owed_all-bound acc f.gain amounts in
    let spread : staked_by amounts * f.gain ≤ f.emission * acc_scale =
      grind (arith, mul_mono f.gain (staked_by amounts) (pos_part total) held, f.shared) in
    let units =
      owed_all-units (owed_all amounts (pos acc) (pos (acc + f.gain))) f.emission (length amounts)
        acc_scale (omega arith) (omega (arith, bound, spread)) in
    rw (gained, f.is_distributed) (omega (int_laws, units))

pos_cancel : (a : ℤ) (b c : ℕ) → a +ℤ pos b ≡ a +ℤ pos c → b ≡ c
unfolding ◌+ℤ◌
pos_cancel a b c e = ground arith

boost_bps_for-boosted :
    (source : String → ℤ → Option ℤ) (user : String) (amount : ℤ) (k : ℕ)
    → 0 < k
    → source user amount ≡ some (pos (k * base_bps))
    → boost_bps_for (some source) user amount ≡ pos (k * base_bps)
unfolding boost_bps_for
boost_bps_for-boosted source user amount k p e = rw e (ground arith)

-- A boost of k times the base: what is pending of a step for a sole staker is k times what the step
-- emits, less one unit, where k times the stake is no more than the accumulator's scale.
pub boost_overpays :
    (seconds : ℕ → ℕ) (source : String → ℤ → Option ℤ) (user : String) (r : FarmReward)
    (now end_time acc staked k emission : ℕ)
    → read_amount r.acc_reward_per_share ≡ pos acc
    → source user (pos staked) ≡ some (pos (k * base_bps))
    → 0 < k
    → 0 < staked
    → k * staked ≤ acc_scale
    → (reward_step seconds r (pos staked) now end_time).distributed
      ≡ read_amount r.total_distributed +ℤ pos emission
    → pos (k * emission)
      ≤ℤ owed
          (boost_bps_for (some source) user (pos staked))
          staked
          (pos acc)
          (reward_step seconds r (pos staked) now end_time).acc
        +ℤ pos 1
boost_overpays seconds source user r now end_time acc staked k emission accumulated boosted p q
      small emitted =
    let f = reward_step-Emitted seconds r (pos staked) now end_time in
    let gained : (reward_step seconds r (pos staked) now end_time).acc ≡ pos (acc + f.gain) =
      f.is_acc ∙ ap (λ a. a +ℤ pos f.gain) accumulated ∙ pos-sum acc f.gain in
    let same : emission ≡ f.emission =
      pos_cancel (read_amount r.total_distributed) emission f.emission
        (sym emitted ∙ f.is_distributed) in
    let most =
      share_ge acc_scale staked k acc f.gain f.emission (omega arith) small (f.shared_out q) in
    rw (gained, boost_bps_for-boosted source user (pos staked) k p boosted, same, owed_boosted)
      (omega (int_laws, most))
