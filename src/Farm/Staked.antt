-- ===== src/Farm/Staked.antt =====
-- That the total of a farm stays the sum of its stakes in the transactions of Stake and Unstake of
-- backend/services/farm_service.go.
use tiger_swap.Prelude.{
  ℕ, ◌+◌, ◌-◌, ◌≤◌, ◌≡◌, refl, true, not, Option, none, some, inl, arith, String, ap, ◌∙◌,
}
use tiger_swap.Prelude.Int.{ℤ, pos, ◌+ℤ◌, ◌-ℤ◌, ltb_ℤ}
use tiger_swap.Ledger.{Database, LedgerError, read_amount, account, debit_within, credit_within}
use tiger_swap.Governance.Ballots.{number}
use tiger_swap.Governance.Decay.{pos-sum}
use tiger_swap.Farm.{boost_bps_for, effective_amount}
use tiger_swap.Farm.Accrual.{FarmPool, accrue_stake}
use tiger_swap.Farm.Staking.{
  FarmStake, FarmSite, StakeEnv, StakeRefusal, database, require, given, is_open, not_open,
  no_stake, short_balance, select, update, on_ledger, find_farm, find_stake, new_stake, add_stake,
  create_stake, load_or_create_stake, set_amount, set_total_staked, settle_change, write_amounts,
  locked_farm, locked_stake, put_stake, less_staked, take_stake,
}
use tiger_swap.Farm.Stakes.{
  staked_in, Held, IsStaked, FoundStake, IsTotal, FoundFarm, find_stake-Found, find_farm-Found,
  Held-amount, new_stake-Totals, set_total_staked-Totals, set_amount-Stakes, staked_in-Held,
}
use tiger_swap.Farm.Steps.{
  Sound, After, >>=-After, require-After, on_ledger-After, on_accounting-After, select-After,
  update-After,
}

-- The farm that is locked, and the stake.
OfFarm : FarmPool → FarmSite → Type 0
OfFarm f t = Sound t × IsTotal f t.stakes

OfStake : FarmPool → FarmStake → FarmSite → Type 0
OfStake f x t = OfFarm f t × Held x t.stakes × (x.farm_id ≡ f.id)

given_farm-After :
    (o : Option FarmPool) (e : StakeRefusal) (t : FarmSite)
    → FoundFarm t.stakes o
    → Sound t
    → After OfFarm (given o e t)
unfolding FoundFarm OfFarm After
given_farm-After none e t k h = tt
given_farm-After (some f) e t k h = (h, k)

locked_farm-After :
    (env : StakeEnv) (id : ℕ) (missing : StakeRefusal) (t : FarmSite)
    → Sound t
    → After OfFarm (locked_farm env id missing t)
unfolding locked_farm
locked_farm-After env id missing t h =
    let find : FarmSite → Option FarmPool = λ s. find_farm id s.farms in
    >>=-After (select env find) _ t (λ o u. FoundFarm u.stakes o × Sound u) _
      (select-After t env find _ (find_farm-Found id t.farms t.stakes h.totals, h))
      (λ o u k. given_farm-After o missing u k.0 k.1)

given_stake-After :
    (f : FarmPool) (o : Option FarmStake) (e : StakeRefusal) (t : FarmSite)
    → FoundStake f.id t.stakes o
    → OfFarm f t
    → After (OfStake f) (given o e t)
unfolding FoundStake OfStake After
given_stake-After f none e t k h = tt
given_stake-After f (some x) e t k h = (h, k.0, k.1)

locked_stake-After :
    (env : StakeEnv) (f : FarmPool) (user : String) (t : FarmSite)
    → OfFarm f t
    → After (OfStake f) (locked_stake env f.id user t)
unfolding locked_stake OfFarm
locked_stake-After env f user t h =
    let find : FarmSite → Option FarmStake = λ s. find_stake f.id user s.stakes in
    >>=-After (select env find) (λ o. given o no_stake) t
      (λ o u. FoundStake f.id u.stakes o × OfFarm f u) _
      (select-After t env find _ (find_stake-Found f.id user t.stakes, h))
      (λ o u k. given_stake-After f o no_stake u k.0 k.1)

create_stake-After :
    (env : StakeEnv) (f : FarmPool) (user : String) (o : Option FarmStake) (t : FarmSite)
    → FoundStake f.id t.stakes o
    → OfFarm f t
    → After (OfStake f) (create_stake env f.id user o t)
unfolding create_stake add_stake FoundStake OfFarm OfStake IsTotal new_stake staked_in After
create_stake-After env f user none t k h =
    let fresh = new_stake t.next_stake f.id user in
    update-After t env fresh (add_stake fresh) (OfStake f) (
      (
        record {
          stakes = (omega arith, refl, h.0.stakes);
          totals = new_stake-Totals t.next_stake f.id user t.farms t.stakes h.0.totals;
        },
        h.1 ∙ ap pos (ground arith),
      ),
      inl refl,
      refl,
    )
create_stake-After env f user (some x) t k h = (h, k.0, k.1)

load_or_create_stake-After :
    (env : StakeEnv) (f : FarmPool) (user : String) (t : FarmSite)
    → OfFarm f t
    → After (OfStake f) (load_or_create_stake env f.id user t)
unfolding load_or_create_stake OfFarm
load_or_create_stake-After env f user t h =
    let find : FarmSite → Option FarmStake = λ s. find_stake f.id user s.stakes in
    >>=-After (select env find) _ t (λ o u. FoundStake f.id u.stakes o × OfFarm f u) _
      (select-After t env find _ (find_stake-Found f.id user t.stakes, h))
      (λ o u k. create_stake-After env f user o u k.0 k.1)

unfoldable pub AllSound : Unit {0} → FarmSite → Type 0
AllSound u t = Sound t

write_amounts-After :
    (env : StakeEnv) (f : FarmPool) (x : FarmStake) (amount total : ℤ) (v w : ℕ) (t : FarmSite)
    → OfStake f x t
    → amount ≡ pos v
    → total ≡ pos w
    → staked_in x.farm_id t.stakes + v ≡ w + number x.amount
    → After AllSound (write_amounts env x.id f.id amount total t)
unfolding write_amounts OfStake OfFarm AllSound
write_amounts-After env f x amount total v w t h is_amount is_total sum =
    let put : FarmSite → FarmSite = λ s. record s { stakes = set_amount x.id (pos v) s.stakes } in
    let raise : FarmSite → FarmSite =
      λ s. record s { farms = set_total_staked x.farm_id (pos w) s.farms } in
    rw (is_amount, is_total, ← h.2)
      (>>=-After (update env tt put) (λ _. update env tt raise) t
        (λ _ u. IsStaked (set_total_staked x.farm_id (pos w) u.farms) u.stakes u.next_stake) _
        (update-After t env tt put _ (record {
          stakes = set_amount-Stakes x.id v t.next_stake t.stakes h.0.0.stakes;
          totals =
              set_total_staked-Totals x v w t.next_stake t.farms t.stakes h.0.0.stakes h.1 sum
                h.0.0.totals;
        }))
        (λ _ u k. update-After u env tt raise _ k))

settle_change-After :
    (env : StakeEnv) (f g : FarmPool) (user : String) (x y : FarmStake) (old new : ℤ) (now : ℕ)
    (t : FarmSite)
    → OfStake f x t
    → After (λ _ u. OfStake f x u) (settle_change env g user y old new now t)
unfolding settle_change OfStake OfFarm
settle_change-After env f g user x y old new now t h =
    on_accounting-After t
      (accrue_stake env.farm_env g y.id (effective_amount old (boost_bps_for env.boost user old))
        (effective_amount new (boost_bps_for env.boost user new)) now)
      (OfStake f x) (λ a. h)

at_least : (m a : ℕ) → not (ltb_ℤ (pos m) (pos a)) ≡ true → a ≤ m
at_least m a h = ground (arith, h)

less_staked-pos : (t a : ℕ) → a ≤ t → less_staked (pos t) a ≡ pos (t - a)
unfolding less_staked ◌-ℤ◌
less_staked-pos t a h = ground (arith, h)

difference-pos : (t a : ℕ) → a ≤ t → pos t -ℤ pos a ≡ pos (t - a)
unfolding ◌-ℤ◌
difference-pos t a h = ground (arith, h)

-- The sums of the two handlers.
put_amounts-After :
    (env : StakeEnv) (f : FarmPool) (x : FarmStake) (amount : ℕ) (t : FarmSite)
    → OfStake f x t
    → After AllSound (
        write_amounts env x.id f.id
          (read_amount x.amount +ℤ pos amount)
          (read_amount f.total_staked +ℤ pos amount)
          t)
unfolding OfStake OfFarm IsTotal
put_amounts-After env f x amount t h =
    let total = staked_in f.id t.stakes in
    let holds = Held-amount t.next_stake x t.stakes h.0.0.stakes h.1 in
    let same : staked_in x.farm_id t.stakes ≡ total = ap (λ g. staked_in g t.stakes) h.2 in
    write_amounts-After env f x _ _ (number x.amount + amount) (total + amount) t h
      (ap (λ a. a +ℤ pos amount) holds ∙ pos-sum (number x.amount) amount)
      (ap (λ a. a +ℤ pos amount) h.0.1 ∙ pos-sum total amount) (omega (arith, same))

pub put_stake-After :
    (env : StakeEnv) (id : ℕ) (user : String) (amount now : ℕ) (t : FarmSite)
    → Sound t
    → After AllSound (put_stake env id user amount now t)
unfolding put_stake OfFarm
put_stake-After env id user amount now t h =
    >>=-After (locked_farm env id database) _ t _ _ (locked_farm-After env id database t h)
      (λ f u k.
        let debit : Database → Option LedgerError × Database =
          debit_within env.ledger_faults (account env.lower user f.chain_id f.token_address)
            (some (pos amount)) in
        >>=-After (require (is_open f now) not_open) _ u _ _
          (require-After u (is_open f now) not_open (OfFarm f) k)
          (λ _ u k.
            >>=-After (on_ledger debit) _ u _ _ (on_ledger-After u debit (OfFarm f) (λ db. k.1))
              (λ _ u k.
                >>=-After (load_or_create_stake env f.id user) _ u _ _
                  (load_or_create_stake-After env f user u k)
                  (λ x u k.
                    >>=-After
                      (settle_change env f user x (read_amount x.amount)
                        (read_amount x.amount +ℤ pos amount) now)
                      _ u _ _ (settle_change-After env f f user x x _ _ now u k)
                      (λ _ u k. put_amounts-After env f x amount u k)))))

take_amounts-After :
    (env : StakeEnv) (f : FarmPool) (x : FarmStake) (amount : ℕ) (t : FarmSite)
    → OfStake f x t
    → not (ltb_ℤ (read_amount x.amount) (pos amount)) ≡ true
    → After AllSound (
        write_amounts env x.id f.id
          (read_amount x.amount -ℤ pos amount)
          (less_staked (read_amount f.total_staked) amount)
          t)
unfolding OfStake OfFarm IsTotal
take_amounts-After env f x amount t h enough =
    let total = staked_in f.id t.stakes in
    let holds = Held-amount t.next_stake x t.stakes h.0.0.stakes h.1 in
    let same : staked_in x.farm_id t.stakes ≡ total = ap (λ g. staked_in g t.stakes) h.2 in
    let most = staked_in-Held t.next_stake x t.stakes h.0.0.stakes h.1 in
    let covered : amount ≤ number x.amount = at_least _ _ (rw holds at enough) in
    write_amounts-After env f x _ _ (number x.amount - amount) (total - amount) t h
      (ap (λ a. a -ℤ pos amount) holds ∙ difference-pos (number x.amount) amount covered)
      (ap (λ a. less_staked a amount) h.0.1
        ∙ less_staked-pos total amount (omega (arith, same, most, covered)))
      (omega (arith, same, most, covered))

pub take_stake-After :
    (env : StakeEnv) (id : ℕ) (user : String) (amount now : ℕ) (t : FarmSite)
    → Sound t
    → After AllSound (take_stake env id user amount now t)
unfolding take_stake OfFarm AllSound
take_stake-After env id user amount now t h =
    >>=-After (locked_farm env id no_stake) _ t _ _ (locked_farm-After env id no_stake t h)
      (λ f u k.
        >>=-After (locked_stake env f.id user) _ u _ _ (locked_stake-After env f user u k) (λ x u k.
          let current = read_amount x.amount in
          let new = current -ℤ pos amount in
          let credit : Database → Option LedgerError × Database =
            credit_within env.ledger_faults (account env.lower user f.chain_id f.token_address)
              f.token_symbol f.token_decimals (some (pos amount)) in
          >>=-After (require (not (ltb_ℤ current (pos amount))) short_balance) _ u _ _
            (require-After u (not (ltb_ℤ current (pos amount))) short_balance (OfStake f x) k)
            (λ _ u k.
              let enough = k.0 in
              >>=-After (settle_change env f user x current new now) _ u _ _
                (settle_change-After env f f user x x _ _ now u k.1)
                (λ _ u k.
                  >>=-After
                    (write_amounts env x.id f.id new
                      (less_staked (read_amount f.total_staked) amount))
                    (λ _. on_ledger credit) u _ _ (take_amounts-After env f x amount u k enough)
                    (λ _ u k. on_ledger-After u credit Sound (λ db. k))))))
