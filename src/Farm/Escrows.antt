-- ===== src/Farm/Escrows.antt =====
-- The escrows of the reward streams of backend/services/farm_service.go: what advanceReward and the update
-- of its row do to them.
use tiger_swap.Prelude.{
  ℕ, ◌+◌, ◌-◌, ◌≤◌, ◌≡◌, refl, Bool, true, false, List, [], ◌∷◌, map, inl, inr, arith, ◌==◌, ==_iff,
  Bool-cases, ap, sym, ◌∙◌,
}
use tiger_swap.Prelude.Int.{ℤ, pos, pos_part, ◌+ℤ◌, ◌-ℤ◌}
use tiger_swap.Ledger.{read_amount}
use tiger_swap.Governance.Decay.{pos-sum}
use tiger_swap.Farm.{FarmReward, until, checkpoint_at, stands, advanced}
use tiger_swap.Farm.Accrual.{rewards_of, saved}
use tiger_swap.Farm.Emission.{budget_of, reward_step-Emitted, emission-le, +ℤ_zero}

-- A stream that has distributed no more than its escrow.
pub record IsFunded (r : FarmReward) : Type 0 where
  pub escrow : ℕ
  pub distributed : ℕ
  pub is_escrow : read_amount r.total_reward ≡ pos escrow
  pub is_distributed : read_amount r.total_distributed ≡ pos distributed
  pub within : distributed ≤ escrow

abbrev pub AllFunded : List FarmReward → Type 0
AllFunded [] = Unit
AllFunded (r ∷ rs) = IsFunded r × AllFunded rs

-- Rows of one id have one escrow.
abbrev pub Agrees : FarmReward → List FarmReward → Type 0
Agrees r [] = Unit
Agrees r (x ∷ xs) = (r.id ≡ x.id → r.total_reward ≡ x.total_reward) × Agrees r xs

abbrev pub AllAgree : List FarmReward → List FarmReward → Type 0
AllAgree [] rs = Unit
AllAgree (r ∷ snapshot) rs = Agrees r rs × AllAgree snapshot rs

pub record IsSound (rs : List FarmReward) : Type 0 where
  pub all_funded : AllFunded rs
  pub agree : AllAgree rs rs

budget_of-difference : (t d : ℕ) → pos_part (pos t -ℤ pos d) ≤ t - d
unfolding ◌-ℤ◌
budget_of-difference t d = ground arith

pub spent-IsFunded :
    (r new : FarmReward) (emission : ℕ)
    → IsFunded r
    → new.total_reward ≡ r.total_reward
    → read_amount new.total_distributed ≡ read_amount r.total_distributed +ℤ pos emission
    → emission ≤ budget_of r
    → IsFunded new
spent-IsFunded r new emission f same spent within =
    let room : budget_of r ≤ f.escrow - f.distributed =
      rw (f.is_escrow, f.is_distributed) (budget_of-difference f.escrow f.distributed) in
    record {
      escrow = f.escrow;
      distributed = f.distributed + emission;
      is_escrow = ap read_amount same ∙ f.is_escrow;
      is_distributed =
          spent ∙ (ap (λ a. a +ℤ pos emission) f.is_distributed ∙ pos-sum f.distributed emission);
      within = omega (arith, f.within, within, room);
    }

pub advanced-IsFunded :
    (seconds : ℕ → ℕ) (r : FarmReward) (total : ℤ) (now end_time : ℕ)
    → IsFunded r
    → IsFunded (advanced seconds r total now end_time)
unfolding advanced
advanced-IsFunded seconds r total now end_time f =
    let checkpoint = checkpoint_at r.last_update_time (until now end_time) in
    let g = reward_step-Emitted seconds r total checkpoint end_time in
    elim (Bool-cases (stands r.last_update_time checkpoint)) [
      | inl same ↦ rw same (spent-IsFunded r _ 0 f refl (+ℤ_zero _) (omega arith))
      | inr moved ↦ rw moved (
          spent-IsFunded r _ g.emission f refl g.is_distributed
            (emission-le r _ _ g.emission g.is_emission).1)
    ]

-- What an update keeps of the ids and the escrows.
pub KeepsEscrow : (FarmReward → FarmReward) → Type 0
KeepsEscrow f = (x : FarmReward) → ((f x).id ≡ x.id) × ((f x).total_reward ≡ x.total_reward)

pub saved-KeepsEscrow : (time_only : Bool) (new : FarmReward) → KeepsEscrow (saved time_only new)
unfolding saved KeepsEscrow
saved-KeepsEscrow true new x = elim (Bool-cases (x.id == new.id)) [
  | inl hit ↦ rw hit (refl, refl)
  | inr miss ↦ rw miss (refl, refl)
]
saved-KeepsEscrow false new x = elim (Bool-cases (x.id == new.id)) [
  | inl hit ↦ rw hit (refl, refl)
  | inr miss ↦ rw miss (refl, refl)
]

pub same_columns :
    (r x : FarmReward)
    → x.total_reward ≡ r.total_reward
    → read_amount x.total_distributed ≡ read_amount r.total_distributed
    → IsFunded r
    → IsFunded x
same_columns r x p q f = record {
  escrow = f.escrow;
  distributed = f.distributed;
  is_escrow = ap read_amount p ∙ f.is_escrow;
  is_distributed = q ∙ f.is_distributed;
  within = f.within;
}

saved-IsFunded :
    (time_only : Bool) (new x : FarmReward)
    → IsFunded new
    → (new.id ≡ x.id → new.total_reward ≡ x.total_reward)
    → IsFunded x
    → IsFunded (saved time_only new x)
unfolding saved
saved-IsFunded true new x f agrees g = elim (Bool-cases (x.id == new.id)) [
  | inl hit ↦ rw hit (same_columns x _ refl refl g)
  | inr miss ↦ rw miss g
]
saved-IsFunded false new x f agrees g = elim (Bool-cases (x.id == new.id)) [
  | inl hit ↦ rw hit (same_columns new _ (sym (agrees (sym ((==_iff _ _).0 hit)))) refl f)
  | inr miss ↦ rw miss g
]

pub saved-AllFunded :
    (time_only : Bool) (new : FarmReward) (rs : List FarmReward)
    → IsFunded new
    → Agrees new rs
    → AllFunded rs
    → AllFunded (map (saved time_only new) rs)
saved-AllFunded time_only new [] f a g = tt
saved-AllFunded time_only new (x ∷ xs) f a g =
    (saved-IsFunded time_only new x f a.0 g.0, saved-AllFunded time_only new xs f a.1 g.1)

pub kept-Agrees :
    (r x : FarmReward) (rs : List FarmReward)
    → x.id ≡ r.id
    → x.total_reward ≡ r.total_reward
    → Agrees r rs
    → Agrees x rs
kept-Agrees r x [] p q a = tt
kept-Agrees r x (y ∷ ys) p q a = (λ same. q ∙ a.0 (sym p ∙ same), kept-Agrees r x ys p q a.1)

module _ (f : FarmReward → FarmReward) (keeps : KeepsEscrow f) where
  pub map-Agrees : (r : FarmReward) (rs : List FarmReward) → Agrees r rs → Agrees r (map f rs)
  unfolding KeepsEscrow
  map-Agrees r [] a = tt
  map-Agrees r (x ∷ xs) a =
      (λ same. a.0 (same ∙ (keeps x).0) ∙ sym (keeps x).1, map-Agrees r xs a.1)

  pub map-AllAgree :
      (snapshot rs : List FarmReward) → AllAgree snapshot rs → AllAgree snapshot (map f rs)
  map-AllAgree [] rs a = tt
  map-AllAgree (r ∷ snapshot) rs a = (map-Agrees r rs a.0, map-AllAgree snapshot rs a.1)

  pub kept-AllAgree :
      (snapshot rs : List FarmReward) → AllAgree snapshot rs → AllAgree (map f snapshot) rs
  unfolding KeepsEscrow
  kept-AllAgree [] rs a = tt
  kept-AllAgree (r ∷ snapshot) rs a =
      (kept-Agrees r (f r) rs (keeps r).0 (keeps r).1 a.0, kept-AllAgree snapshot rs a.1)

pub rewards_of-AllFunded :
    (id : ℕ) (rs : List FarmReward) → AllFunded rs → AllFunded (rewards_of id rs)
unfolding rewards_of
rewards_of-AllFunded id [] f = tt
rewards_of-AllFunded id (r ∷ rs) f = elim (Bool-cases (r.farm_id == id)) [
  | inl hit ↦ rw hit (f.0, rewards_of-AllFunded id rs f.1)
  | inr miss ↦ rw miss (rewards_of-AllFunded id rs f.1)
]

pub rewards_of-AllAgree :
    (id : ℕ) (snapshot rs : List FarmReward)
    → AllAgree snapshot rs
    → AllAgree (rewards_of id snapshot) rs
unfolding rewards_of
rewards_of-AllAgree id [] rs a = tt
rewards_of-AllAgree id (r ∷ snapshot) rs a = elim (Bool-cases (r.farm_id == id)) [
  | inl hit ↦ rw hit (a.0, rewards_of-AllAgree id snapshot rs a.1)
  | inr miss ↦ rw miss (rewards_of-AllAgree id snapshot rs a.1)
]
