-- ===== src/Farm/Rate.antt =====
-- How much a reward stream emits over many calls of advanceReward of backend/services/farm_service.go, at
-- whatever times and stakes: no interval counts twice. Seconds of Go adds the whole seconds and the rest
-- of a duration in float64, with 53 bits. A duration is below 2^34 s, so the sum is off by less than
-- 1000 ns, and its int64 may be a second more than the whole seconds just below the next second.
use tiger_swap.Prelude.{
  ℕ, suc, ◌+◌, ◌-◌, ◌*◌, ◌≤◌, ◌<◌, ◌≡◌, refl, List, [], ◌∷◌, length, Option, some, inl, inr, arith,
  Bool-cases, ap, ◌∙◌,
}
use tiger_swap.Prelude.Int.{ℤ, pos, pos_part, ◌+ℤ◌, int_laws, eq_of_parts}
use tiger_swap.Prelude.Word.{half_word}
use tiger_swap.Ledger.{read_amount}
use tiger_swap.Governance.Power.{second, sub_time}
use tiger_swap.Governance.Decay.{mul_mono}
use tiger_swap.Farm.{FarmReward, until, elapsed_seconds, checkpoint_at, stands, advanced}
use tiger_swap.Farm.Emission.{rate_of, since, reward_step-Emitted, emission-le, +ℤ_zero}

-- A microsecond, in nanoseconds.
abbrev pub rounding : ℕ
rounding = 1000

-- int64(d.Seconds()) of a duration is no more than the duration, but for the rounding.
abbrev pub IsSeconds : (ℕ → ℕ) → Type 0
IsSeconds seconds = (d : ℕ) → d < half_word → seconds d * second ≤ d + rounding

-- What advanceReward does to a row that has a checkpoint.
pub record IsAdvance (r new : FarmReward) (last : ℕ) : Type 0 where
  pub checkpoint : ℕ
  pub emission : ℕ
  pub is_checkpoint : new.last_update_time ≡ some checkpoint
  pub later : last ≤ checkpoint
  pub is_distributed :
      read_amount new.total_distributed ≡ read_amount r.total_distributed +ℤ pos emission
  pub by_rate : emission * second ≤ rate_of r * (checkpoint - last + rounding)

checkpoint_at-later : (o : Option ℕ) (last now : ℕ) → o ≡ some last → last ≤ checkpoint_at o now
unfolding checkpoint_at
checkpoint_at-later o last now e = rw e (ground arith)

sub_time-le : (a b : ℕ) → sub_time a b ≤ a - b
unfolding sub_time
sub_time-le a b = ground arith

sub_time-lt : (a b : ℕ) → sub_time a b < half_word
unfolding sub_time
sub_time-lt a b = ground arith

until-le : (now end_time : ℕ) → until now end_time ≤ now
unfolding until
until-le now end_time = ground arith

since-le :
    (seconds : ℕ → ℕ) (o : Option ℕ) (last now end_time : ℕ)
    → IsSeconds seconds
    → o ≡ some last
    → since seconds o now end_time * second ≤ now - last + rounding
unfolding since elapsed_seconds
since-le seconds o last now end_time good e =
    let u = until now end_time in
    let shorter : seconds (sub_time u last) * second ≤ now - last + rounding = omega (
      arith,
      good (sub_time u last) (sub_time-lt u last),
      sub_time-le u last,
      until-le now end_time,
    ) in
    rw e (ground (arith, shorter))

-- By the rate and some seconds, of which the nanoseconds are no more than these.
emission_by :
    (rate emission elapsed span : ℕ)
    → emission ≤ rate * elapsed
    → elapsed * second ≤ span
    → emission * second ≤ rate * span
emission_by rate emission elapsed span h k =
    let scaled = mul_mono rate (elapsed * second) span k in grind (arith, h, scaled)

pub advanced-IsAdvance :
    (seconds : ℕ → ℕ) (r : FarmReward) (total : ℤ) (now end_time last : ℕ)
    → IsSeconds seconds
    → r.last_update_time ≡ some last
    → IsAdvance r (advanced seconds r total now end_time) last
unfolding advanced
advanced-IsAdvance seconds r total now end_time last good e =
    let checkpoint = checkpoint_at r.last_update_time (until now end_time) in
    let f = reward_step-Emitted seconds r total checkpoint end_time in
    let later = checkpoint_at-later r.last_update_time last (until now end_time) e in
    elim (Bool-cases (stands r.last_update_time checkpoint)) [
      | inl same ↦ rw same (record {
        checkpoint = checkpoint;
        emission = 0;
        is_checkpoint = refl;
        later = later;
        is_distributed = +ℤ_zero _;
        by_rate = omega arith;
      })
      | inr moved ↦
          let parts = emission-le r _ _ f.emission f.is_emission in
          let span = since-le seconds r.last_update_time last checkpoint end_time good e in
          rw moved (record {
            checkpoint = checkpoint;
            emission = f.emission;
            is_checkpoint = refl;
            later = later;
            is_distributed = f.is_distributed;
            by_rate = emission_by (rate_of r) f.emission _ _ parts.0 span;
          })
    ]

-- The columns that advanceReward leaves.
pub record Unchanged (r new : FarmReward) : Type 0 where
  pub is_id : new.id ≡ r.id
  pub is_rate : new.rate_per_second ≡ r.rate_per_second
  pub is_total : new.total_reward ≡ r.total_reward

pub advanced-Unchanged :
    (seconds : ℕ → ℕ) (r : FarmReward) (total : ℤ) (now end_time : ℕ)
    → Unchanged r (advanced seconds r total now end_time)
unfolding advanced
advanced-Unchanged seconds r total now end_time =
    elim (Bool-cases
      (stands r.last_update_time (checkpoint_at r.last_update_time (until now end_time)))) [
        | inl same ↦ rw same (record { is_id = refl; is_rate = refl; is_total = refl })
        | inr moved ↦ rw moved (record { is_id = refl; is_rate = refl; is_total = refl })
      ]

-- Calls of advanceReward in turn, each with the recorded stake and the time.
pub advance_all : (ℕ → ℕ) → ℕ → List (ℤ × ℕ) → FarmReward → FarmReward
advance_all seconds end_time [] r = r
advance_all seconds end_time (visit ∷ visits) r =
    advance_all seconds end_time visits (advanced seconds r visit.0 visit.1 end_time)

pub record IsPaced (calls : ℕ) (r new : FarmReward) (last : ℕ) : Type 0 where
  pub checkpoint : ℕ
  pub emission : ℕ
  pub is_checkpoint : new.last_update_time ≡ some checkpoint
  pub later : last ≤ checkpoint
  pub is_distributed :
      read_amount new.total_distributed ≡ read_amount r.total_distributed +ℤ pos emission
  pub by_rate : emission * second ≤ rate_of r * (checkpoint - last + calls * rounding)

by_rate_join :
    (rate first second_part from middle last calls : ℕ)
    → from ≤ middle
    → middle ≤ last
    → first * second ≤ rate * (middle - from + rounding)
    → second_part * second ≤ rate * (last - middle + calls * rounding)
    → (first + second_part) * second ≤ rate * (last - from + suc calls * rounding)
by_rate_join rate first second_part from middle last calls h k p q =
    let spans : last - from + suc calls * rounding
        ≡ middle - from + rounding + (last - middle + calls * rounding) =
      omega arith in
    rw spans (grind (arith, p, q))

-- Whatever the recorded stakes and the times, also times that go back, calls of advanceReward leave the
-- checkpoint no earlier, and add to the distributed total no more than the rate emits in the time from
-- the first checkpoint to the last one and a microsecond for each call, where int64(d.Seconds()) exceeds
-- no duration d below 2^63 ns by more than a microsecond.
pub advance_all-IsPaced :
    (seconds : ℕ → ℕ) (end_time : ℕ) (visits : List (ℤ × ℕ)) (r : FarmReward) (last : ℕ)
    → IsSeconds seconds
    → r.last_update_time ≡ some last
    → IsPaced (length visits) r (advance_all seconds end_time visits r) last
unfolding advance_all
advance_all-IsPaced seconds end_time [] r last good e = record {
  checkpoint = last;
  emission = 0;
  is_checkpoint = e;
  later = omega arith;
  is_distributed = +ℤ_zero _;
  by_rate = omega arith;
}
advance_all-IsPaced seconds end_time (visit ∷ visits) r last good e =
    let f = advanced-IsAdvance seconds r visit.0 visit.1 end_time last good e in
    let new = advanced seconds r visit.0 visit.1 end_time in
    let g = advance_all-IsPaced seconds end_time visits new f.checkpoint good f.is_checkpoint in
    let kept : rate_of new ≡ rate_of r =
      ap (λ o. pos_part (read_amount o))
        (advanced-Unchanged seconds r visit.0 visit.1 end_time).is_rate in
    record {
      checkpoint = g.checkpoint;
      emission = f.emission + g.emission;
      is_checkpoint = g.is_checkpoint;
      later = omega (arith, f.later, g.later);
      is_distributed =
          g.is_distributed
          ∙ (ap (λ a. a +ℤ pos g.emission) f.is_distributed ∙ eq_of_parts _ _ (omega int_laws));
      by_rate =
          by_rate_join (rate_of r) f.emission g.emission last f.checkpoint g.checkpoint
            (length visits) f.later g.later f.by_rate (rw kept at g.by_rate);
    }
