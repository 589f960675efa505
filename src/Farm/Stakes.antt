-- ===== src/Farm/Stakes.antt =====
-- The stakes and the totals of the farms of backend/services/farm_service.go: what the two updates of
-- Stake and Unstake do to their sum.
use tiger_swap.Prelude.{
  ℕ, ◌+◌, ◌≤◌, ◌<◌, ◌≡◌, refl, Bool, List, [], ◌∷◌, Option, none, some, ◌⊎◌, inl, inr, arith, ◌==◌,
  ◌&&◌, String, ==_iff, if◌then◌else◌, Bool-cases, ap, sym, ◌∙◌, true, false, subst,
}
use tiger_swap.Prelude.Int.{ℤ, pos}
use tiger_swap.Ledger.{read_amount}
use tiger_swap.Governance.Ballots.{number}
use tiger_swap.Farm.Accrual.{FarmPool}
use text.Mathlib.Text.{◌==◌ as str_eq}
use tiger_swap.Farm.Staking.{
  FarmStake, set_amount, set_total_staked, new_stake, find_stake, find_farm,
}

-- What is staked in a farm.
unfoldable pub staked_in : ℕ → List FarmStake → ℕ
staked_in farm_id [] = 0
staked_in farm_id (x ∷ xs) =
    (if x.farm_id == farm_id then number x.amount else 0) + staked_in farm_id xs

-- Stakes with falling ids below `n`, each of a number.
abbrev pub Stakes : ℕ → List FarmStake → Type 0
Stakes n [] = Unit
Stakes n (x ∷ xs) = (x.id < n) × (x.amount ≡ some (pos (number x.amount))) × Stakes x.id xs

abbrev pub Totals : List FarmPool → List FarmStake → Type 0
Totals [] xs = Unit
Totals (f ∷ fs) xs = (read_amount f.total_staked ≡ pos (staked_in f.id xs)) × Totals fs xs

abbrev pub Held : FarmStake → List FarmStake → Type 0
Held x [] = ⊥
Held x (y ∷ ys) = (x ≡ y) ⊎ Held x ys

Held-lt : (n : ℕ) (x : FarmStake) (xs : List FarmStake) → Stakes n xs → Held x xs → x.id < n
Held-lt n x [] k h = elim h [ ]
Held-lt n x (y ∷ ys) k (inl same) = omega (arith, ap (λ (z : FarmStake). z.id) same, k.0)
Held-lt n x (y ∷ ys) k (inr below) = omega (arith, Held-lt y.id x ys k.2 below, k.0)

set_number :
    (i id v : ℕ) (o : Option ℤ)
    → o ≡ some (pos (number o))
    → (if i == id then some (pos v) else o)
      ≡ some (pos (number (if i == id then some (pos v) else o)))
set_number i id v o k = elim (Bool-cases (i == id)) [
  | inl hit ↦ rw hit refl
  | inr miss ↦ simp miss k
]

pub set_amount-Stakes :
    (id v n : ℕ) (xs : List FarmStake) → Stakes n xs → Stakes n (set_amount id (pos v) xs)
unfolding set_amount
set_amount-Stakes id v n [] k = tt
set_amount-Stakes id v n (x ∷ xs) k =
    (k.0, set_number x.id id v x.amount k.1, set_amount-Stakes id v x.id xs k.2)

-- Ids above those of the stakes change nothing.
staked_in-above :
    (id v n g : ℕ) (xs : List FarmStake)
    → Stakes n xs
    → n ≤ id
    → staked_in g (set_amount id (pos v) xs) ≡ staked_in g xs
unfolding staked_in set_amount
staked_in-above id v n g [] k h = refl
staked_in-above id v n g (x ∷ xs) k h =
    let other : (x.id == id) ≡ false = ground (arith, k.0) in
    rw other (
      ap (λ m. (if x.farm_id == g then number x.amount else 0) + m)
        (staked_in-above id v x.id g xs k.2 (omega (arith, k.0))))

part : ℕ → FarmStake → ℕ → ℕ
part g x m = if x.farm_id == g then m else 0

staked_in-head :
    (y : FarmStake) (v n g : ℕ) (ys : List FarmStake)
    → Stakes n (y ∷ ys)
    → staked_in g (set_amount y.id (pos v) (y ∷ ys)) + part g y (number y.amount)
      ≡ staked_in g (y ∷ ys) + part g y v
unfolding staked_in set_amount part
staked_in-head y v n g ys k =
    let hit : (y.id == y.id) ≡ true = (==_iff _ _).1 refl in
    let rest = staked_in-above y.id v y.id g ys k.2 (omega arith) in rw (hit, rest) (ground arith)

-- A changed amount, in the sum of any farm.
staked_in-changed :
    (x : FarmStake) (v n g : ℕ) (xs : List FarmStake)
    → Stakes n xs
    → Held x xs
    → staked_in g (set_amount x.id (pos v) xs) + part g x (number x.amount)
      ≡ staked_in g xs + part g x v
unfolding staked_in set_amount part
staked_in-changed x v n g [] k h = elim h [ ]
staked_in-changed x v n g (y ∷ ys) k (inl same) =
    subst
      (λ (z : FarmStake).
        staked_in g (set_amount z.id (pos v) (y ∷ ys)) + part g z (number z.amount)
        ≡ staked_in g (y ∷ ys) + part g z v)
      (sym same) (staked_in-head y v n g ys k)
staked_in-changed x v n g (y ∷ ys) k (inr below) =
    let lower = Held-lt y.id x ys k.2 below in
    let other : (y.id == x.id) ≡ false = ground (arith, lower) in
    rw other (omega (arith, staked_in-changed x v y.id g ys k.2 below))

part-same : (x : FarmStake) (m : ℕ) → part x.farm_id x m ≡ m
unfolding part
part-same x m = ground arith

part-other : (g : ℕ) (x : FarmStake) (m : ℕ) → (g ≡ x.farm_id → ⊥) → part g x m ≡ 0
unfolding part
part-other g x m h = ground (arith, h)

-- The two updates of Stake and Unstake, where the new total is what the change of the stake makes it.
pub set_total_staked-Totals :
    (x : FarmStake) (v total n : ℕ) (fs : List FarmPool) (xs : List FarmStake)
    → Stakes n xs
    → Held x xs
    → staked_in x.farm_id xs + v ≡ total + number x.amount
    → Totals fs xs
    → Totals (set_total_staked x.farm_id (pos total) fs) (set_amount x.id (pos v) xs)
unfolding set_total_staked read_amount
set_total_staked-Totals x v total n [] xs k held sum t = tt
set_total_staked-Totals x v total n (f ∷ fs) xs k held sum t =
    let changed = staked_in-changed x v n f.id xs k held in
    let rest = set_total_staked-Totals x v total n fs xs k held sum t.1 in
    elim (Bool-cases (f.id == x.farm_id)) [
      | inl hit ↦
          let all = set_amount x.id (pos v) xs in
          let here = staked_in-changed x v n x.farm_id xs k held in
          let is : total ≡ staked_in x.farm_id all =
            omega (arith, here, sum, part-same x v, part-same x (number x.amount)) in
          let same : x.farm_id ≡ f.id = sym ((==_iff _ _).0 hit) in
          rw hit (ap pos (is ∙ ap (λ g. staked_in g all) same), rest)
      | inr miss ↦
          let apart : f.id ≡ x.farm_id → ⊥ = λ e. ground (arith, e, miss) in
          let is : staked_in f.id xs ≡ staked_in f.id (set_amount x.id (pos v) xs) = omega (
            arith,
            changed,
            part-other f.id x v apart,
            part-other f.id x (number x.amount) apart,
          ) in
          rw miss (t.0 ∙ ap pos is, rest)
    ]

-- A new stake of nothing, which stands first.
pub new_stake-Totals :
    (id farm_id : ℕ) (user : String) (fs : List FarmPool) (xs : List FarmStake)
    → Totals fs xs
    → Totals fs (new_stake id farm_id user ∷ xs)
unfolding new_stake staked_in
new_stake-Totals id farm_id user [] xs t = tt
new_stake-Totals id farm_id user (f ∷ fs) xs t =
    (t.0 ∙ ap pos (ground arith), new_stake-Totals id farm_id user fs xs t.1)

left_of : (a b : Bool) → (a && b) ≡ true → a ≡ true
left_of true b h = refl
left_of false b h = h

-- The totals of the farms are the sums of their stakes.
pub record IsStaked (fs : List FarmPool) (xs : List FarmStake) (n : ℕ) : Type 0 where
  pub stakes : Stakes n xs
  pub totals : Totals fs xs

unfoldable pub FoundStake : ℕ → List FarmStake → Option FarmStake → Type 0
FoundStake farm_id xs none = Unit
FoundStake farm_id xs (some x) = Held x xs × (x.farm_id ≡ farm_id)

FoundStake-below :
    (farm_id : ℕ) (y : FarmStake) (ys : List FarmStake) (o : Option FarmStake)
    → FoundStake farm_id ys o
    → FoundStake farm_id (y ∷ ys) o
unfolding FoundStake
FoundStake-below farm_id y ys none h = tt
FoundStake-below farm_id y ys (some x) h = (inr h.0, h.1)

pub find_stake-Found :
    (farm_id : ℕ) (user : String) (xs : List FarmStake)
    → FoundStake farm_id xs (find_stake farm_id user xs)
unfolding find_stake FoundStake
find_stake-Found farm_id user [] = tt
find_stake-Found farm_id user (y ∷ ys) =
    elim (Bool-cases (y.farm_id == farm_id && str_eq y.user_id user)) [
      | inl hit ↦ rw hit (inl refl, (==_iff _ _).0 (left_of _ _ hit))
      | inr miss ↦ rw miss (FoundStake-below farm_id y ys _ (find_stake-Found farm_id user ys))
    ]

unfoldable pub IsTotal : FarmPool → List FarmStake → Type 0
IsTotal f xs = read_amount f.total_staked ≡ pos (staked_in f.id xs)

unfoldable pub FoundFarm : List FarmStake → Option FarmPool → Type 0
FoundFarm xs none = Unit
FoundFarm xs (some f) = IsTotal f xs

pub find_farm-Found :
    (id : ℕ) (fs : List FarmPool) (xs : List FarmStake)
    → Totals fs xs
    → FoundFarm xs (find_farm id fs)
unfolding find_farm FoundFarm IsTotal
find_farm-Found id [] xs t = tt
find_farm-Found id (g ∷ fs) xs t = elim (Bool-cases (g.id == id)) [
  | inl hit ↦ rw hit t.0
  | inr miss ↦ rw miss (find_farm-Found id fs xs t.1)
]

pub Held-amount :
    (n : ℕ) (x : FarmStake) (xs : List FarmStake)
    → Stakes n xs
    → Held x xs
    → read_amount x.amount ≡ pos (number x.amount)
unfolding read_amount
Held-amount n x [] k h = elim h [ ]
Held-amount n x (y ∷ ys) k (inl same) =
    let amounts = ap (λ (z : FarmStake). read_amount z.amount) same in
    amounts ∙ (ap read_amount k.1 ∙ ap (λ (z : FarmStake). pos (number z.amount)) (sym same))
Held-amount n x (y ∷ ys) k (inr below) = Held-amount y.id x ys k.2 below

pub staked_in-Held :
    (n : ℕ) (x : FarmStake) (xs : List FarmStake)
    → Stakes n xs
    → Held x xs
    → number x.amount ≤ staked_in x.farm_id xs
unfolding staked_in
staked_in-Held n x [] k h = elim h [ ]
staked_in-Held n x (y ∷ ys) k (inl same) =
    subst (λ (z : FarmStake). number z.amount ≤ staked_in z.farm_id (y ∷ ys)) (sym same)
      (ground arith)
staked_in-Held n x (y ∷ ys) k (inr below) = omega (arith, staked_in-Held y.id x ys k.2 below)
