-- ===== src/Farm/Accruing.antt =====
-- What accrueStake of backend/services/farm_service.go does to the escrows of the reward streams.
use tiger_swap.Prelude.{ℕ, Bool, true, List, [], ◌∷◌, Option, none, some, inl, inr, Bool-cases}
use tiger_swap.Prelude.Int.{ℤ}
use tiger_swap.Ledger.{read_amount}
use tiger_swap.Farm.{FarmReward, FarmStakeReward, until, checkpoint_at, stands, advanced}
use tiger_swap.Farm.Accrual.{
  FarmPool, FarmTables, FarmEnv, FarmAction, called, and_then, read_rows, write_rows, rewards_of,
  saved, save_reward, advance_reward, find_checkpoint, create_missing, load_or_create_stake_reward,
  new_checkpoint, add_checkpoint, save_checkpoint, settled, settle_stake, accrue_reward,
  accrue_rewards, accrue_stake,
}
use tiger_swap.Farm.Rate.{advanced-Unchanged}
use tiger_swap.Farm.Escrows.{
  IsFunded, AllFunded, Agrees, AllAgree, IsSound, saved-KeepsEscrow, advanced-IsFunded,
  saved-AllFunded, map-AllAgree, kept-AllAgree, kept-Agrees, rewards_of-AllFunded,
  rewards_of-AllAgree,
}

-- The end of an action: on an answer Q of it and the tables, and P of the tables on an error.
unfoldable pub Ends :
    {A : Type 0}
    → (FarmTables → Type 0)
    → (A → FarmTables → Type 0)
    → Option A × FarmTables
    → Type 0
Ends P Q (none, t) = P t
Ends P Q (some a, t) = Q a t

pub and_then-Ends :
    {A B : Type 0} (P : FarmTables → Type 0) (Q : A → FarmTables → Type 0)
    (R : B → FarmTables → Type 0) (m : FarmAction A) (f : A → FarmAction B) (s : FarmTables)
    → Ends P Q (m s)
    → ((a : A) (t : FarmTables) → Q a t → Ends P R (f a t))
    → Ends P R (and_then m f s)
unfolding and_then Ends
and_then-Ends P Q R m f s h k = continued (m s) h
  where
    continued :
        (x : _)
        → Ends P Q x
        → Ends P R (let (r, t) = x in elim r [ none ↦ (none, t) | some a ↦ f a t ])
    continued (none, t) h = h
    continued (some a, t) h = k a t h

-- The rows are sound, and the snapshot agrees with them.
record IsRead (snapshot rs : List FarmReward) : Type 0 where
  all_funded : AllFunded snapshot
  agree : AllAgree snapshot rs
  sound : IsSound rs

-- An action that leaves the rows so, whether it fails or not.
Kept : {A : Type 0} → List FarmReward → Option A × FarmTables → Type 0
Kept snapshot x = Ends (λ t. IsSound t.rewards) (λ _ t. IsRead snapshot t.rewards) x

pub read_rows-Ends :
    {A : Type 0} (env : FarmEnv) (P : FarmTables → Type 0) (Q : A → FarmTables → Type 0)
    (f : FarmTables → A) (s : FarmTables)
    → P (called s)
    → Q (f s) (called s)
    → Ends P Q (read_rows env f s)
unfolding read_rows Ends
read_rows-Ends env P Q f s h k = elim (Bool-cases (env.faults s.calls)) [
  | inl failed ↦ rw failed h
  | inr done ↦ rw done k
]

module _ (env : FarmEnv) (snapshot : List FarmReward) where
  write_rows-Kept :
      {A : Type 0} (a : A) (f : FarmTables → FarmTables) (s : FarmTables)
      → IsSound s.rewards
      → IsRead snapshot (f s).rewards
      → Kept snapshot (write_rows env a f s)
  unfolding write_rows Kept Ends
  write_rows-Kept a f s h k = elim (Bool-cases (env.faults s.calls)) [
    | inl failed ↦ rw failed h
    | inr done ↦ rw done k
  ]

  save_reward-IsRead :
      (time_only : Bool) (new : FarmReward) (s : FarmTables)
      → IsFunded new
      → Agrees new s.rewards
      → IsRead snapshot s.rewards
      → IsRead snapshot (save_reward time_only new s).rewards
  unfolding save_reward
  save_reward-IsRead time_only new s f a k =
      let keeps = saved-KeepsEscrow time_only new in
      let update = saved time_only new in
      record {
        all_funded = k.all_funded;
        agree = map-AllAgree update keeps snapshot s.rewards k.agree;
        sound = record {
          all_funded = saved-AllFunded time_only new s.rewards f a k.sound.all_funded;
          agree =
              kept-AllAgree update keeps s.rewards _
                (map-AllAgree update keeps s.rewards s.rewards k.sound.agree);
        };
      }

  create_missing-Kept :
      (stake_id reward_id : ℕ) (found : Option FarmStakeReward) (s : FarmTables)
      → IsRead snapshot s.rewards
      → Kept snapshot (create_missing env stake_id reward_id found s)
  unfolding create_missing add_checkpoint Kept Ends
  create_missing-Kept stake_id reward_id none s k =
      let fresh = new_checkpoint s.next_id stake_id reward_id in
      write_rows-Kept (fresh, true) (add_checkpoint fresh) s k.sound k
  create_missing-Kept stake_id reward_id (some sr) s k = k

  load-Kept :
      (stake_id reward_id : ℕ) (s : FarmTables)
      → IsRead snapshot s.rewards
      → Kept snapshot (load_or_create_stake_reward env stake_id reward_id s)
  unfolding load_or_create_stake_reward Kept
  load-Kept stake_id reward_id s k =
      let find : FarmTables → Option FarmStakeReward =
        λ t. find_checkpoint stake_id reward_id t.checkpoints in
      and_then-Ends _ _ _ (read_rows env find) _ s
        (read_rows-Ends env (λ t. IsSound t.rewards) (λ _ t. IsRead snapshot t.rewards) find s
          k.sound k)
        (λ found t h. create_missing-Kept stake_id reward_id found t h)

  accrue_reward-Kept :
      (farm : FarmPool) (stake_id : ℕ) (old_effective new_effective : ℤ) (now : ℕ) (r : FarmReward)
      (s : FarmTables)
      → IsFunded r
      → Agrees r s.rewards
      → IsRead snapshot s.rewards
      → Kept snapshot (accrue_reward env farm stake_id old_effective new_effective now r s)
  unfolding accrue_reward advance_reward settle_stake save_checkpoint Kept
  accrue_reward-Kept farm stake_id old_effective new_effective now r s f a k =
      let total = read_amount farm.total_staked in
      let new = advanced env.seconds r total now farm.end_time in
      let checkpoint = checkpoint_at r.last_update_time (until now farm.end_time) in
      let still = stands r.last_update_time checkpoint in
      let same = advanced-Unchanged env.seconds r total now farm.end_time in
      let settle : FarmReward → FarmStakeReward × Bool → FarmAction Bool =
        settle_stake env old_effective new_effective in
      let load : FarmReward → FarmAction (FarmStakeReward × Bool) =
        λ answer. load_or_create_stake_reward env stake_id answer.id in
      and_then-Ends _ _ _ (advance_reward env r total now farm.end_time)
        (λ answer. and_then (load answer) (settle answer)) s
        (write_rows-Kept new (save_reward still new) s k.sound (
          save_reward-IsRead still new s (advanced-IsFunded env.seconds r total now farm.end_time f)
            (kept-Agrees r new s.rewards same.is_id same.is_total a) k))
        (λ answer t h.
          and_then-Ends _ _ _ (load answer) (settle answer) t (load-Kept stake_id answer.id t h)
            (λ loaded u g.
              write_rows-Kept true
                (save_checkpoint (
                  settled loaded.1 old_effective new_effective
                    (read_amount answer.acc_reward_per_share) loaded.0))
                u g.sound g))

-- The tables are sound on every path.
unfoldable pub AlwaysSound : {A : Type 0} → Option A × FarmTables → Type 0
AlwaysSound x = Ends (λ t. IsSound t.rewards) (λ _ t. IsSound t.rewards) x

accrue_rewards-AlwaysSound :
    (env : FarmEnv) (farm : FarmPool) (stake_id : ℕ) (old_effective new_effective : ℤ) (now : ℕ)
    (rs : List FarmReward) (s : FarmTables)
    → IsRead rs s.rewards
    → AlwaysSound (accrue_rewards env farm stake_id old_effective new_effective now rs s)
unfolding accrue_rewards AlwaysSound Ends Kept
accrue_rewards-AlwaysSound env farm stake_id old_effective new_effective now [] s k = k.sound
accrue_rewards-AlwaysSound env farm stake_id old_effective new_effective now (r ∷ rs) s k =
    and_then-Ends _ (λ _ t. IsRead rs t.rewards) _
      (accrue_reward env farm stake_id old_effective new_effective now r)
      (λ _. accrue_rewards env farm stake_id old_effective new_effective now rs) s
      (accrue_reward-Kept env rs farm stake_id old_effective new_effective now r s k.all_funded.0
        k.agree.0 (record { all_funded = k.all_funded.1; agree = k.agree.1; sound = k.sound }))
      (λ _ t h. accrue_rewards-AlwaysSound env farm stake_id old_effective new_effective now rs t h)

pub accrue_stake-AlwaysSound :
    (env : FarmEnv) (farm : FarmPool) (stake_id : ℕ) (old_effective new_effective : ℤ) (now : ℕ)
    (s : FarmTables)
    → IsSound s.rewards
    → AlwaysSound (accrue_stake env farm stake_id old_effective new_effective now s)
unfolding accrue_stake AlwaysSound
accrue_stake-AlwaysSound env farm stake_id old_effective new_effective now s h =
    let find : FarmTables → List FarmReward = λ t. rewards_of farm.id t.rewards in
    and_then-Ends _ (λ rs t. IsRead rs t.rewards) _ (read_rows env find)
      (accrue_rewards env farm stake_id old_effective new_effective now) s
      (read_rows-Ends env _ _ find s h (record {
        all_funded = rewards_of-AllFunded farm.id s.rewards h.all_funded;
        agree = rewards_of-AllAgree farm.id s.rewards s.rewards h.agree;
        sound = h;
      }))
      (λ rs t k.
        accrue_rewards-AlwaysSound env farm stake_id old_effective new_effective now rs t k)
