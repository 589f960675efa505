-- ===== src/Farm/Staking.antt =====
-- The handlers Stake and Unstake of backend/services/farm_service.go: the farms, the stakes, the reward
-- accounting and the ledger of balances, all in one transaction. `faults` says which of the handlers' own
-- calls of the database fail; the accounting and the ledger number theirs apart. The ledger is configured.
use text.Mathlib.Text.{◌==◌ as str_eq}
use tiger_swap.Prelude.{
  ℕ, ◌+◌, Bool, true, false, not, ◌&&◌, List, [], ◌∷◌, map, Option, none, some, ◌⊎◌, inl, inr, ltb,
  ◌==◌, if◌then◌else◌, String,
}
use tiger_swap.Prelude.Int.{ℤ, pos, ◌+ℤ◌, ◌-ℤ◌, ltb_ℤ}
use tiger_swap.Ledger.{
  Database, LedgerError, insufficient_balance, read_amount, account, credit_within, debit_within,
}
use tiger_swap.Governance.Amounts.{Text, parse_amount_or_zero}
use tiger_swap.Farm.{boost_bps_for, effective_amount}
use tiger_swap.Farm.Accrual.{FarmPool, FarmTables, FarmEnv, FarmAction, accrue_stake}

pub record FarmStake : Type 0 where
  pub id : ℕ
  pub farm_id : ℕ
  pub user_id : String
  pub amount : Option ℤ

-- A stake that is created stands first.
pub record FarmSite : Type 0 where
  pub farms : List FarmPool
  pub stakes : List FarmStake
  pub next_stake : ℕ
  pub accounting : FarmTables
  pub ledger : Database
  pub calls : ℕ

pub record StakeEnv : Type 0 where
  pub faults : ℕ → Bool
  pub ledger_faults : ℕ → Bool
  pub farm_env : FarmEnv
  pub lower : String → String
  pub boost : Option (String → ℤ → Option ℤ)

pub data StakeRefusal : Type 0 where
  bad_farm_id bad_body unauthorized bad_amount farm_not_found not_active not_started ended
        not_open :
      StakeRefusal
  short_balance no_stake database : StakeRefusal

abbrev pub StakeAction : Type 0 → Type 0
StakeAction A = FarmSite → (StakeRefusal ⊎ A) × FarmSite

abbrev pub called : FarmSite → FarmSite
called s = record s { calls = s.calls + 1 }

infixl 5 ◌>>=◌
unfoldable pub ◌>>=◌ : {A B : Type 0} → StakeAction A → (A → StakeAction B) → StakeAction B
◌>>=◌ m f s = let (r, t) = m s in elim r [ inl e ↦ (inl e, t) | inr a ↦ f a t ]

abbrev pub require : Bool → StakeRefusal → StakeAction (Unit {0})
require true e s = (inr tt, s)
require false e s = (inl e, s)

abbrev pub given : {A : Type 0} → Option A → StakeRefusal → StakeAction A
given none e s = (inl e, s)
given (some a) e s = (inr a, s)

-- The amount, which is positive.
unfoldable pub parsed : Text → StakeAction ℕ
unfolding parse_amount_or_zero
parsed raw s = elim (parse_amount_or_zero raw) [
  | inl e ↦ (inl bad_amount, s)
  | inr n ↦ if n == 0 then (inl bad_amount, s) else (inr n, s)
]

-- One call that reads.
unfoldable pub select : {A : Type 0} → StakeEnv → (FarmSite → A) → StakeAction A
select env f s = (if env.faults s.calls then inl database else inr (f s), called s)

-- One call that writes, with the answer.
unfoldable pub update : {A : Type 0} → StakeEnv → A → (FarmSite → FarmSite) → StakeAction A
update env a f s = if env.faults s.calls then (inl database, called s) else (inr a, called (f s))

abbrev pub refusal_of : LedgerError → StakeRefusal
refusal_of insufficient_balance = short_balance
refusal_of _ = database

unfoldable pub on_ledger : (Database → Option LedgerError × Database) → StakeAction (Unit {0})
on_ledger move s =
    let (r, db) = move s.ledger in
    (elim r [ none ↦ inr tt | some e ↦ inl (refusal_of e) ], record s { ledger = db })

unfoldable pub on_accounting : FarmAction Bool → StakeAction (Unit {0})
on_accounting act s =
    let (r, t) = act s.accounting in
    (elim r [ none ↦ inl database | some _ ↦ inr tt ], record s { accounting = t })

unfoldable pub find_farm : ℕ → List FarmPool → Option FarmPool
find_farm id [] = none
find_farm id (f ∷ fs) = if f.id == id then some f else find_farm id fs

unfoldable pub find_stake : ℕ → String → List FarmStake → Option FarmStake
find_stake farm_id user [] = none
find_stake farm_id user (x ∷ xs) =
    if x.farm_id == farm_id && str_eq x.user_id user then some x else find_stake farm_id user xs

unfoldable pub new_stake : ℕ → ℕ → String → FarmStake
new_stake id farm_id user = record {
  id = id;
  farm_id = farm_id;
  user_id = user;
  amount = some (pos 0);
}

unfoldable pub add_stake : FarmStake → FarmSite → FarmSite
add_stake x s = record s { stakes = x ∷ s.stakes; next_stake = s.next_stake + 1 }

unfoldable pub create_stake : StakeEnv → ℕ → String → Option FarmStake → StakeAction FarmStake
unfolding new_stake add_stake update
create_stake env farm_id user (some x) s = (inr x, s)
create_stake env farm_id user none s =
    let fresh = new_stake s.next_stake farm_id user in update env fresh (add_stake fresh) s

unfoldable pub load_or_create_stake : StakeEnv → ℕ → String → StakeAction FarmStake
unfolding select find_stake create_stake ◌>>=◌
load_or_create_stake env farm_id user =
    select env (λ s. find_stake farm_id user s.stakes) >>= create_stake env farm_id user

abbrev pub with_amount : ℕ → ℤ → FarmStake → FarmStake
with_amount id v x = record x { amount = if x.id == id then some v else x.amount }

unfoldable pub set_amount : ℕ → ℤ → List FarmStake → List FarmStake
set_amount id v xs = map (with_amount id v) xs

abbrev pub with_total : ℕ → ℤ → FarmPool → FarmPool
with_total id v f = record f { total_staked = if f.id == id then some v else f.total_staked }

unfoldable pub set_total_staked : ℕ → ℤ → List FarmPool → List FarmPool
set_total_staked id v fs = map (with_total id v) fs

-- accrueStake for a change of the stake's amount, each at the boost of the moment.
unfoldable pub settle_change :
    StakeEnv → FarmPool → String → FarmStake → ℤ → ℤ → ℕ → StakeAction (Unit {0})
unfolding on_accounting accrue_stake effective_amount boost_bps_for
settle_change env farm user x old new now = on_accounting (
    accrue_stake env.farm_env farm x.id (effective_amount old (boost_bps_for env.boost user old))
      (effective_amount new (boost_bps_for env.boost user new)) now)

-- The two updates of the stake's amount and of the farm's total.
unfoldable pub write_amounts : StakeEnv → ℕ → ℕ → ℤ → ℤ → StakeAction (Unit {0})
unfolding update set_amount set_total_staked ◌>>=◌
write_amounts env stake_id farm_id amount total =
    update env tt (λ s. record s { stakes = set_amount stake_id amount s.stakes }) >>= λ _.
    update env tt (λ s. record s { farms = set_total_staked farm_id total s.farms })

unfoldable pub is_open : FarmPool → ℕ → Bool
is_open farm now = farm.active && not (ltb now farm.start_time) && ltb now farm.end_time

-- SELECT ... FOR UPDATE of the farm.
unfoldable pub locked_farm : StakeEnv → ℕ → StakeRefusal → StakeAction FarmPool
unfolding select find_farm ◌>>=◌
locked_farm env id missing = select env (λ s. find_farm id s.farms) >>= λ found. given found missing

unfoldable pub put_stake : StakeEnv → ℕ → String → ℕ → ℕ → StakeAction (Unit {0})
unfolding locked_farm is_open on_ledger debit_within load_or_create_stake settle_change
    write_amounts read_amount ◌>>=◌
put_stake env farm_id user amount now = locked_farm env farm_id database >>= λ farm.
    require (is_open farm now) not_open >>= λ _.
    on_ledger (
      debit_within env.ledger_faults (account env.lower user farm.chain_id farm.token_address)
        (some (pos amount)))
    >>= λ _. load_or_create_stake env farm.id user >>= λ x.
        let old = read_amount x.amount in
        let new = old +ℤ pos amount in
        settle_change env farm user x old new now >>= λ _.
        write_amounts env x.id farm.id new (read_amount farm.total_staked +ℤ pos amount)

-- totalStaked less the amount, not below 0.
unfoldable pub less_staked : ℤ → ℕ → ℤ
less_staked total amount =
    let rest = total -ℤ pos amount in if ltb_ℤ rest (pos 0) then pos 0 else rest

unfoldable pub locked_stake : StakeEnv → ℕ → String → StakeAction FarmStake
unfolding select find_stake ◌>>=◌
locked_stake env farm_id user =
    select env (λ s. find_stake farm_id user s.stakes) >>= λ found. given found no_stake

unfoldable pub take_stake : StakeEnv → ℕ → String → ℕ → ℕ → StakeAction (Unit {0})
unfolding locked_farm locked_stake on_ledger credit_within settle_change write_amounts less_staked
    read_amount ◌>>=◌
take_stake env farm_id user amount now = locked_farm env farm_id no_stake >>= λ farm.
    locked_stake env farm.id user >>= λ x.
    let current = read_amount x.amount in
    let new = current -ℤ pos amount in
    require (not (ltb_ℤ current (pos amount))) short_balance >>= λ _.
    settle_change env farm user x current new now >>= λ _.
    write_amounts env x.id farm.id new (less_staked (read_amount farm.total_staked) amount) >>= λ _.
    on_ledger (
      credit_within env.ledger_faults (account env.lower user farm.chain_id farm.token_address)
        farm.token_symbol farm.token_decimals (some (pos amount)))

-- Everything as it was, but for the counts of calls.
abbrev pub undone : FarmSite → FarmSite → FarmSite
undone s t = record s {
  accounting = record s.accounting { calls = t.accounting.calls };
  ledger = record s.ledger { calls = t.ledger.calls };
  calls = t.calls + 1;
}

-- The end of a transaction that began at `s`: an error of the body, or of the commit, undoes it.
unfoldable pub finished :
    StakeEnv
    → FarmSite
    → (StakeRefusal ⊎ Unit {0}) × FarmSite
    → (StakeRefusal ⊎ Unit {0}) × FarmSite
finished env s (inl e, t) = (inl e, undone s t)
finished env s (inr u, t) =
    if env.faults t.calls then (inl database, undone s t) else (inr u, called t)

-- gorm's Transaction.
unfoldable pub in_transaction : StakeEnv → StakeAction (Unit {0}) → StakeAction (Unit {0})
unfolding finished
in_transaction env body s =
    if env.faults s.calls then (inl database, called s) else finished env s (body (called s))

-- The farm as loadFarm reads it, before the transaction.
unfoldable pub load_farm : StakeEnv → ℕ → StakeAction FarmPool
unfolding locked_farm
load_farm env id = locked_farm env id farm_not_found

-- `id` and `body` are none where they do not parse, `user` where the caller is not authenticated.
unfoldable pub stake :
    StakeEnv → Option ℕ → Option Text → Option String → ℕ → StakeAction (Unit {0})
unfolding parsed load_farm in_transaction put_stake ◌>>=◌
stake env id body user now = given id bad_farm_id >>= λ farm_id. given body bad_body >>= λ raw.
    given user unauthorized >>= λ caller. parsed raw >>= λ amount. load_farm env farm_id >>= λ farm.
    require farm.active not_active >>= λ _.
    require (not (ltb now farm.start_time)) not_started >>= λ _.
    require (ltb now farm.end_time) ended >>= λ _.
    in_transaction env (put_stake env farm.id caller amount now)

unfoldable pub unstake :
    StakeEnv → Option ℕ → Option Text → Option String → ℕ → StakeAction (Unit {0})
unfolding parsed load_farm in_transaction take_stake ◌>>=◌
unstake env id body user now = given id bad_farm_id >>= λ farm_id. given body bad_body >>= λ raw.
    given user unauthorized >>= λ caller. parsed raw >>= λ amount.
    load_farm env farm_id >>= λ farm. in_transaction env (take_stake env farm.id caller amount now)
