-- ===== src/Governance/Decay.antt =====
-- How voting power falls: votingPower on the locks that CreateLock makes.
use tiger_swap.Prelude.{
  ℕ, ◌+◌, ◌-◌, ◌*◌, ◌/◌, ◌≤◌, ◌<◌, ◌≡◌, refl, false, not, ◌||◌, Option, some, arith, String, ltb,
  ◌==◌, if◌then◌else◌, Bool-cases, inl, inr, ap, ◌∙◌,
}
use tiger_swap.Prelude.Int.{ℤ, pos, ◌+ℤ◌, ◌*ℤ◌}
use tiger_swap.Prelude.Word.{half_word}
use tiger_swap.Governance.Tables.{VeLock, Env}
use tiger_swap.Governance.Power.{
  second, min_lock_seconds, max_lock_seconds, sub_time, div_floor, decayed, voting_power,
}
use tiger_swap.Governance.Locks.{new_lock}

-- What the handlers rely on of Go's clock and durations: time does not go back, and the seconds of a
-- duration grow with it and are exact for whole seconds.
pub record IsEnv (env : Env) : Type 0 where
  pub forward : (a b : ℕ) → a ≤ b → env.clock a ≤ env.clock b
  pub whole : (d : ℕ) → d * second < half_word → env.seconds (d * second) ≡ d
  pub grows : (d e : ℕ) → d ≤ e → e < half_word → env.seconds d ≤ env.seconds e

-- A lock of `n`, for a span of time that CreateLock accepts.
pub record IsLock (l : VeLock) (n : ℕ) : Type 0 where
  pub is_amount : l.amount ≡ some (pos n)
  pub long : l.start_time + min_lock_seconds * second ≤ l.unlock_time
  pub short : l.unlock_time ≤ l.start_time + max_lock_seconds * second

pub mul-div_self : (n d : ℕ) → 0 < d → n * d / d ≡ n
mul-div_self n d h = grind arith

pub div_mono : (a b d : ℕ) → 0 < d → a ≤ b → a / d ≤ b / d
div_mono a b d h k = grind arith

pub mul_mono : (n a b : ℕ) → a ≤ b → n * a ≤ n * b
mul_mono n a b h = grind arith

div-le_of_le : (n a d : ℕ) → 0 < d → a ≤ d → n * a / d ≤ n
div-le_of_le n a d h k = grind arith

-- The decayed amount, in numbers.
pub decay : Env → VeLock → ℕ → ℕ → ℕ
decay env l n t =
    if l.withdrawn || not (ltb t l.unlock_time)
    then 0
    else n * env.seconds (l.unlock_time - t) / env.seconds (l.unlock_time - l.start_time)

pub pos-mul : (n m : ℕ) → pos n *ℤ pos m ≡ pos (n * m)
unfolding ◌*ℤ◌
pos-mul n m = ground arith

pub pos-sum : (a b : ℕ) → pos a +ℤ pos b ≡ pos (a + b)
unfolding ◌+ℤ◌
pos-sum a b = ground arith

sub_time-small : (a b : ℕ) → a - b < half_word → sub_time a b ≡ a - b
unfolding sub_time
sub_time-small a b h = ground arith

decayed-pos : (n r d : ℕ) → 0 < d → decayed (some (pos n)) r d ≡ some (pos (n * r / d))
unfolding decayed div_floor
decayed-pos n r d h = elim (Bool-cases (d == 0)) [
  | inl z ↦ absurd (ground arith)
  | inr z ↦ rw (z, decayed, pos-mul n r) refl
]

if_positive :
    (d : ℕ)
    → 0 < d
    → (x : Option ℤ) {y : Option ℤ} → x ≡ y
    → (if d == 0 then some (pos 0) else x) ≡ y
if_positive d h x e = elim (Bool-cases (d == 0)) [ inl z ↦ absurd (ground arith) | inr z ↦ rw z e ]

module _ (env : Env) (good : IsEnv env) (l : VeLock) (n : ℕ) (lock : IsLock l n) where
  span_pos : 0 < env.seconds (l.unlock_time - l.start_time)
  span_pos = omega (
    arith,
    lock.long,
    lock.short,
    good.whole min_lock_seconds (omega arith),
    good.grows (min_lock_seconds * second) (l.unlock_time - l.start_time) (omega (arith, lock.long))
        (omega (arith, lock.short)),
  )

  pub voting_power-decay :
      (t : ℕ) → l.start_time ≤ t → voting_power env l t ≡ some (pos (decay env l n t))
  unfolding voting_power decay
  voting_power-decay t h = elim (Bool-cases (l.withdrawn || not (ltb t l.unlock_time))) [
    | inl over ↦ rw (over, voting_power) refl
    | inr live ↦
        let span = sub_time-small l.unlock_time l.start_time (omega (arith, lock.short)) in
        let left = sub_time-small l.unlock_time t (omega (arith, lock.short, h)) in
        rw (live, voting_power, span, left, lock.is_amount)
          (if_positive (l.unlock_time - l.start_time) (omega (arith, lock.long)) _
            (decayed-pos n _ _ span_pos))
  ]

  decay-le : (t : ℕ) → l.start_time ≤ t → decay env l n t ≤ n
  unfolding decay
  decay-le t h = elim (Bool-cases (l.withdrawn || not (ltb t l.unlock_time))) [
    | inl over ↦ rw (over, decay) (omega arith)
    | inr live ↦
        rw (live, decay)
          (div-le_of_le n _ _ span_pos (
            good.grows (l.unlock_time - t) (l.unlock_time - l.start_time) (omega (arith, h))
              (omega (arith, lock.short))))
  ]

  decay-antitone : (t u : ℕ) → l.start_time ≤ t → t ≤ u → decay env l n u ≤ decay env l n t
  unfolding decay
  decay-antitone t u h k = elim (Bool-cases (l.withdrawn || not (ltb u l.unlock_time))) [
    | inl over ↦ rw (over, decay) (omega arith)
    | inr live ↦
        let early : (l.withdrawn || not (ltb t l.unlock_time)) ≡ false = ground arith in
        rw (live, early, decay)
          (div_mono _ _ _ span_pos (
            mul_mono n _ _ (
              good.grows (l.unlock_time - u) (l.unlock_time - t) (omega (arith, k))
                (omega (arith, lock.short, h)))))
  ]

  whole_decay : (t : ℕ) → l.start_time ≡ t → l.withdrawn ≡ false → decay env l n t ≡ n
  unfolding decay
  whole_decay t h live =
      let early : (l.withdrawn || not (ltb t l.unlock_time)) ≡ false = ground (arith, lock.long) in
      rw (early, decay, ← h) (mul-div_self n _ span_pos)

  decay-over : (u : ℕ) → l.unlock_time ≤ u → decay env l n u ≡ 0
  unfolding decay
  decay-over u h = ground arith

  -- From its start on a lock's voting power is defined, at most the amount locked, does not rise with
  -- time, and is 0 once the lock has expired.
  pub voting_power_falls :
      (t u : ℕ)
      → l.start_time ≤ t
      → t ≤ u
      → (p : ℕ) × (q : ℕ) × (voting_power env l t ≡ some (pos p))
        × (voting_power env l u ≡ some (pos q))
        × (q ≤ p)
        × (p ≤ n)
        × (l.unlock_time ≤ u → q ≡ 0)
  voting_power_falls t u h k = (
    decay env l n t,
    decay env l n u,
    voting_power-decay t h,
    voting_power-decay u (omega (arith, h, k)),
    decay-antitone t u h k,
    decay-le t h,
    decay-over u,
  )

new_lock-IsLock :
    (id : ℕ) (user : String) (n t d : ℕ)
    → min_lock_seconds ≤ d
    → d ≤ max_lock_seconds
    → IsLock (new_lock id user n t d) n
new_lock-IsLock id user n t d h k = record {
  is_amount = refl;
  long = omega (arith, h);
  short = omega (arith, k);
}

-- A new lock has its whole amount as its power.
pub voting_power-new_lock :
    (env : Env)
    → IsEnv env
    → (id : ℕ) (user : String) (n t d : ℕ) → min_lock_seconds ≤ d
    → d ≤ max_lock_seconds
    → voting_power env (new_lock id user n t d) t ≡ some (pos n)
unfolding decay
voting_power-new_lock env good id user n t d h k =
    let l = new_lock id user n t d in
    let lock = new_lock-IsLock id user n t d h k in
    voting_power-decay env good l n lock t (omega arith)
    ∙ ap (λ (i : ℕ). some (pos i)) (whole_decay env good l n lock t refl refl)
