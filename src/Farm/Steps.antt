-- ===== src/Farm/Steps.antt =====
-- What each step of the handlers Stake and Unstake of backend/services/farm_service.go leaves: rules for
-- the proofs about them.
use tiger_swap.Prelude.{◌≡◌, refl, Bool, true, false, Option, none, some, ◌⊎◌, inl, inr, Bool-cases}
use tiger_swap.Ledger.{Database, LedgerError}
use tiger_swap.Farm.Accrual.{FarmTables, FarmAction}
use tiger_swap.Farm.Staking.{
  FarmSite, StakeEnv, StakeRefusal, database, refusal_of, StakeAction, called, ◌>>=◌, require,
  select, update, on_ledger, on_accounting,
}
use tiger_swap.Farm.Stakes.{IsStaked}

-- The totals of the farms are the sums of their stakes.
abbrev pub Sound : FarmSite → Type 0
Sound s = IsStaked s.farms s.stakes s.next_stake

-- What holds after an action that answers.
unfoldable pub After :
    {A : Type 0} → (A → FarmSite → Type 0) → (StakeRefusal ⊎ A) × FarmSite → Type 0
After Q (inl e, t) = Unit
After Q (inr a, t) = Q a t

pub >>=-After :
    {A B : Type 0} (m : StakeAction A) (k : A → StakeAction B) (s : FarmSite)
    (Q : A → FarmSite → Type 0) (R : B → FarmSite → Type 0)
    → After Q (m s)
    → ((a : A) (t : FarmSite) → Q a t → After R (k a t))
    → After R ((m >>= k) s)
unfolding ◌>>=◌ After
>>=-After m k s Q R h p = continued (m s) h
  where
    continued :
        (x : _)
        → After Q x
        → After R (let (r, t) = x in elim r [ inl e ↦ (inl e, t) | inr a ↦ k a t ])
    continued (inl e, t) h = tt
    continued (inr a, t) h = p a t h

module _ (t : FarmSite) where
  pub require-After :
      (b : Bool) (e : StakeRefusal) (P : FarmSite → Type 0)
      → P t
      → After (λ _ u. (b ≡ true) × P u) (require b e t)
  unfolding After
  require-After true e P p = (refl, p)
  require-After false e P p = tt

  pub on_ledger-After :
      (move : Database → Option LedgerError × Database) (P : FarmSite → Type 0)
      → ((db : Database) → P (record t { ledger = db }))
      → After (λ _ u. P u) (on_ledger move t)
  unfolding on_ledger After
  on_ledger-After move P p = moved (move t.ledger)
    where
      moved :
          (x : Option LedgerError × Database)
          → After
              (λ (_ : Unit {0}) (u : FarmSite). P u)
              (elim x.0 [ none ↦ inr tt | some e ↦ inl (refusal_of e) ], record t { ledger = x.1 })
      moved (none, db) = p db
      moved (some e, db) = tt

  pub on_accounting-After :
      (act : FarmAction Bool) (P : FarmSite → Type 0)
      → ((a : FarmTables) → P (record t { accounting = a }))
      → After (λ _ u. P u) (on_accounting act t)
  unfolding on_accounting After
  on_accounting-After act P p = acted (act t.accounting)
    where
      acted :
          (x : Option Bool × FarmTables)
          → After
              (λ (_ : Unit {0}) (u : FarmSite). P u)
              (elim x.0 [ none ↦ inl database | some _ ↦ inr tt ], record t { accounting = x.1 })
      acted (none, a) = tt
      acted (some b, a) = p a

  pub select-After :
      {A : Type 0} (env : StakeEnv) (f : FarmSite → A) (Q : A → FarmSite → Type 0)
      → Q (f t) (called t)
      → After Q (select env f t)
  unfolding select After
  select-After env f Q p = elim (Bool-cases (env.faults t.calls)) [
    | inl failed ↦ rw failed tt
    | inr done ↦ rw done p
  ]

  pub update-After :
      {A : Type 0} (env : StakeEnv) (a : A) (f : FarmSite → FarmSite) (Q : A → FarmSite → Type 0)
      → Q a (called (f t))
      → After Q (update env a f t)
  unfolding update After
  update-After env a f Q p = elim (Bool-cases (env.faults t.calls)) [
    | inl failed ↦ rw failed tt
    | inr done ↦ rw done p
  ]
