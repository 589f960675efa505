-- ===== src/Farm/Raising.antt =====
-- What FundFarmReward of backend/services/farm_service.go does to the escrows of the reward streams.
use tiger_swap.Prelude.{
  ℕ, ◌+◌, ◌≡◌, refl, true, false, List, [], ◌∷◌, map, Option, none, some, inl, inr, arith, ◌==◌,
  ==_iff, if◌then◌else◌, Bool-cases, ap, sym, ◌∙◌,
}
use tiger_swap.Prelude.Int.{ℤ, pos, pos_part, ◌+ℤ◌}
use tiger_swap.Ledger.{read_amount}
use tiger_swap.Governance.Decay.{pos-sum}
use tiger_swap.Farm.{FarmReward}
use tiger_swap.Farm.Accrual.{
  FarmTables, FarmEnv, read_rows, write_rows, find_reward, funded, raise_budget, fund_reward,
}
use tiger_swap.Farm.Escrows.{IsFunded, AllFunded, Agrees, AllAgree, IsSound, same_columns}
use tiger_swap.Farm.Accruing.{Ends, and_then-Ends, read_rows-Ends, AlwaysSound}

-- The row that FundFarmReward locks.
record IsLocked (id : ℕ) (rs : List FarmReward) (r : FarmReward) : Type 0 where
  is_id : r.id ≡ id
  is_funded : IsFunded r
  agrees : Agrees r rs

LockedOrNone : ℕ → List FarmReward → Option FarmReward → Type 0
LockedOrNone id rs none = Unit
LockedOrNone id rs (some r) = IsLocked id rs r

find_reward-Locked :
    (id : ℕ) (snapshot rs : List FarmReward)
    → AllFunded snapshot
    → AllAgree snapshot rs
    → LockedOrNone id rs (find_reward id snapshot)
unfolding find_reward LockedOrNone
find_reward-Locked id [] rs f a = tt
find_reward-Locked id (r ∷ snapshot) rs f a = elim (Bool-cases (r.id == id)) [
  | inl hit ↦ rw hit (record { is_id = (==_iff _ _).0 hit; is_funded = f.0; agrees = a.0 })
  | inr miss ↦ rw miss (find_reward-Locked id snapshot rs f.1 a.1)
]

escrow_of-same :
    (i j id : ℕ) (total v w : Option ℤ)
    → (i ≡ j → v ≡ w)
    → i ≡ j
    → (if i == id then total else v) ≡ (if j == id then total else w)
escrow_of-same i j id total v w agrees same = elim (Bool-cases (i == id)) [
  | inl hit ↦
      let also : (j == id) ≡ true = ap (λ n. n == id) (sym same) ∙ hit in rw (hit, also) refl
  | inr miss ↦
      let also : (j == id) ≡ false = ap (λ n. n == id) (sym same) ∙ miss in
      rw (miss, also) (agrees same)
]

funded-Agrees :
    (id : ℕ) (total : ℤ) (r : FarmReward) (rs : List FarmReward)
    → Agrees r rs
    → Agrees (funded id total r) (map (funded id total) rs)
unfolding funded
funded-Agrees id total r [] a = tt
funded-Agrees id total r (x ∷ xs) a = (
  escrow_of-same r.id x.id id (some total) r.total_reward x.total_reward a.0,
  funded-Agrees id total r xs a.1,
)

funded-AllAgree :
    (id : ℕ) (total : ℤ) (snapshot rs : List FarmReward)
    → AllAgree snapshot rs
    → AllAgree (map (funded id total) snapshot) (map (funded id total) rs)
funded-AllAgree id total [] rs a = tt
funded-AllAgree id total (r ∷ snapshot) rs a =
    (funded-Agrees id total r rs a.0, funded-AllAgree id total snapshot rs a.1)

raised-IsFunded :
    (locked x : FarmReward) (id amount : ℕ)
    → IsFunded locked
    → IsFunded x
    → (x.id ≡ id → locked.total_reward ≡ x.total_reward)
    → IsFunded (funded id (read_amount locked.total_reward +ℤ pos amount) x)
unfolding funded read_amount
raised-IsFunded locked x id amount f g agrees = elim (Bool-cases (x.id == id)) [
  | inl hit ↦
      let same : g.escrow ≡ f.escrow =
        ap pos_part
          (sym g.is_escrow ∙ (ap read_amount (sym (agrees ((==_iff _ _).0 hit))) ∙ f.is_escrow)) in
      rw hit (record {
        escrow = f.escrow + amount;
        distributed = g.distributed;
        is_escrow = ap (λ a. a +ℤ pos amount) f.is_escrow ∙ pos-sum f.escrow amount;
        is_distributed = g.is_distributed;
        within = omega (arith, g.within, same);
      })
  | inr miss ↦ rw miss (same_columns x _ refl refl g)
]

raised-AllFunded :
    (locked : FarmReward) (id amount : ℕ) (rs : List FarmReward)
    → IsFunded locked
    → locked.id ≡ id
    → Agrees locked rs
    → AllFunded rs
    → AllFunded (map (funded id (read_amount locked.total_reward +ℤ pos amount)) rs)
raised-AllFunded locked id amount [] f same a g = tt
raised-AllFunded locked id amount (x ∷ xs) f same a g = (
  raised-IsFunded locked x id amount f g.0 (λ is. a.0 (same ∙ sym is)),
  raised-AllFunded locked id amount xs f same a.1 g.1,
)

raise_budget-AlwaysSound :
    (env : FarmEnv) (id amount : ℕ) (found : Option FarmReward) (s : FarmTables)
    → LockedOrNone id s.rewards found
    → IsSound s.rewards
    → AlwaysSound (raise_budget env id amount found s)
unfolding raise_budget write_rows AlwaysSound Ends LockedOrNone
raise_budget-AlwaysSound env id amount none s l h = h
raise_budget-AlwaysSound env id amount (some r) s l h = elim (Bool-cases (env.faults s.calls)) [
  | inl failed ↦ rw failed h
  | inr done ↦ rw done (record {
    all_funded = raised-AllFunded r id amount s.rewards l.is_funded l.is_id l.agrees h.all_funded;
    agree = funded-AllAgree id _ s.rewards s.rewards h.agree;
  })
]

pub fund_reward-AlwaysSound :
    (env : FarmEnv) (id amount : ℕ) (s : FarmTables)
    → IsSound s.rewards
    → AlwaysSound (fund_reward env id amount s)
unfolding fund_reward AlwaysSound
fund_reward-AlwaysSound env id amount s h =
    let find : FarmTables → Option FarmReward = λ t. find_reward id t.rewards in
    and_then-Ends _ (λ found t. LockedOrNone id t.rewards found × IsSound t.rewards) _
      (read_rows env find) (raise_budget env id amount) s
      (read_rows-Ends env _ _ find s h
        (find_reward-Locked id s.rewards s.rewards h.all_funded h.agree, h))
      (λ found t k. raise_budget-AlwaysSound env id amount found t k.0 k.1)
