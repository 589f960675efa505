-- ===== src/Ledger/Rows.antt =====
-- The table's invariant, and what an update of one row changes.
use tiger_swap.Prelude.{
  ℕ, ◌<◌, ◌≡◌, refl, true, false, List, [], ◌∷◌, none, some, inl, inr, ◌==◌, arith, ap, subst,
  Bool-cases, Option-cases, All,
}
use tiger_swap.Prelude.Int.{ℤ, pos}
use tiger_swap.Ledger.{
  AccountBalance, Account, is_of, find_row, with_available, update_available, read_amount,
  available,
}

-- The row's balance is a number that is not negative.
pub record IsFunded (r : AccountBalance) : Type 0 where
  pub amount : ℕ
  pub is_amount : r.available ≡ some (pos amount)

-- Ids fall strictly along the table, from below `n`, and no account has two rows.
abbrev pub Keyed : ℕ → List AccountBalance → Type 0
Keyed n [] = Unit {0}
Keyed n (r ∷ rs) = (r.id < n) × Keyed r.id rs

pub record TableOk (n : ℕ) (rs : List AccountBalance) : Type 0 where
  pub keyed : Keyed n rs
  pub funded : All IsFunded rs

same_id : (r s : AccountBalance) → some r ≡ some s → r.id ≡ s.id
same_id r s e = let same : r ≡ s = cc in ap (λ (y : AccountBalance). y.id) same

module _ (k : Account) where
  pub find_row-is_of :
      (rs : List AccountBalance) (r : AccountBalance) → find_row k rs ≡ some r → is_of k r ≡ true
  unfolding find_row
  find_row-is_of [] r e = absurd (cc)
  find_row-is_of (x ∷ xs) r e = elim (Bool-cases (is_of k x)) [
    | inl hit ↦
        let same : some x ≡ some r = rw (hit, find_row) at e in
        subst (λ y. is_of k y ≡ true) (cc) hit
    | inr miss ↦ find_row-is_of xs r (rw (miss, find_row) at e)
  ]

  find_row-below :
      (n : ℕ) (rs : List AccountBalance) (r : AccountBalance)
      → Keyed n rs
      → find_row k rs ≡ some r
      → r.id < n
  unfolding find_row
  find_row-below n [] r i e = absurd (cc)
  find_row-below n (x ∷ xs) r i e = elim (Bool-cases (is_of k x)) [
    | inl hit ↦
        let same : some x ≡ some r = rw (hit, find_row) at e in omega (arith, i.0, same_id x r same)
    | inr miss ↦ omega (arith, find_row-below x.id xs r i.1 (rw (miss, find_row) at e), i.0)
  ]

  pub find_row-All {κ} :
      (P : AccountBalance → Type κ) (rs : List AccountBalance) (r : AccountBalance)
      → All P rs
      → find_row k rs ≡ some r
      → P r
  unfolding find_row
  find_row-All P [] r a e = absurd (cc)
  find_row-All P (x ∷ xs) r a e = elim (Bool-cases (is_of k x)) [
    | inl hit ↦ let same : some x ≡ some r = rw (hit, find_row) at e in subst P (cc) a.0
    | inr miss ↦ find_row-All P xs r a.1 (rw (miss, find_row) at e)
  ]

  -- An update does not change which row is an account's.
  find_row-update_some :
      (id : ℕ) (v : ℤ) (rs : List AccountBalance) (r : AccountBalance)
      → find_row k rs ≡ some r
      → find_row k (update_available id v rs) ≡ some (with_available id v r)
  unfolding find_row update_available is_of
  find_row-update_some id v [] r e = absurd (cc)
  find_row-update_some id v (x ∷ xs) r e = elim (Bool-cases (is_of k x)) [
    | inl hit ↦
        let same : some x ≡ some r = rw (hit, find_row) at e in
        rw (find_row, hit) (ap some (ap (with_available id v) (cc)))
    | inr miss ↦ rw (find_row, miss) (find_row-update_some id v xs r (rw (miss, find_row) at e))
  ]

  find_row-update_none :
      (id : ℕ) (v : ℤ) (rs : List AccountBalance)
      → find_row k rs ≡ none
      → find_row k (update_available id v rs) ≡ none
  unfolding find_row update_available is_of
  find_row-update_none id v [] e = refl
  find_row-update_none id v (x ∷ xs) e = elim (Bool-cases (is_of k x)) [
    | inl hit ↦ absurd (let bad : some x ≡ none = rw (hit, find_row) at e in cc)
    | inr miss ↦ rw (find_row, miss) (find_row-update_none id v xs (rw (miss, find_row) at e))
  ]

-- Two accounts whose rows have one id have one row.
one_row :
    (k j : Account) (n : ℕ) (rs : List AccountBalance) (r s : AccountBalance)
    → Keyed n rs
    → find_row k rs ≡ some r
    → find_row j rs ≡ some s
    → r.id ≡ s.id
    → is_of j r ≡ true
unfolding find_row
one_row k j n [] r s i e f q = absurd (cc)
one_row k j n (x ∷ xs) r s i e f q = elim (Bool-cases (is_of k x)) [
  | inl hit ↦
      let same : some x ≡ some r = rw (hit, find_row) at e in
      elim (Bool-cases (is_of j x)) [
        | inl hit' ↦ subst (λ y. is_of j y ≡ true) (cc) hit'
        | inr miss' ↦
            let below = find_row-below j x.id xs s i.1 (rw (miss', find_row) at f) in
            absurd (omega (arith, below, q, same_id _ _ same))
      ]
  | inr miss ↦
      let rest = rw (miss, find_row) at e in
      let below_r = find_row-below k x.id xs r i.1 rest in
      elim (Bool-cases (is_of j x)) [
        | inl hit' ↦
            let same : some x ≡ some s = rw (hit', find_row) at f in
            absurd (omega (arith, below_r, q, same_id _ _ same))
        | inr miss' ↦ one_row k j x.id xs r s i.1 rest (rw (miss', find_row) at f) q
      ]
]

-- The update writes the account's balance, and no other's.
pub available-update_self :
    (k : Account) (v : ℤ) (rs : List AccountBalance) (r : AccountBalance)
    → find_row k rs ≡ some r
    → available k (update_available r.id v rs) ≡ v
unfolding available read_amount
available-update_self k v rs r e =
    rw (available, find_row-update_some k r.id v rs r e) (ground arith)

pub available-update_other :
    (k j : Account) (v : ℤ) (n : ℕ) (rs : List AccountBalance) (r : AccountBalance)
    → Keyed n rs
    → find_row k rs ≡ some r
    → is_of j r ≡ false
    → available j (update_available r.id v rs) ≡ available j rs
unfolding available read_amount
available-update_other k j v n rs r i e ne = elim (Option-cases (find_row j rs)) [
  | inl missing ↦ rw (available, missing, find_row-update_none j r.id v rs missing) refl
  | inr (s, found) ↦ elim (Bool-cases (s.id == r.id)) [
    | inl same ↦ absurd (let mine = one_row k j n rs r s i e found (ground arith) in cc)
    | inr other ↦ rw (available, found, find_row-update_some j r.id v rs s found) (rw other refl)
  ]
]

update_available-Keyed :
    (id : ℕ) (v : ℤ) (n : ℕ) (rs : List AccountBalance)
    → Keyed n rs
    → Keyed n (update_available id v rs)
unfolding update_available
update_available-Keyed id v n [] i = tt
update_available-Keyed id v n (x ∷ xs) i = (i.0, update_available-Keyed id v x.id xs i.1)

with_available-IsFunded :
    (id m : ℕ) (r : AccountBalance) → IsFunded r → IsFunded (with_available id (pos m) r)
with_available-IsFunded id m r f = elim (Bool-cases (r.id == id)) [
  | inl hit ↦ record { amount = m; is_amount = rw hit refl }
  | inr miss ↦ record { amount = f.amount; is_amount = rw miss f.is_amount }
]

update_available-funded :
    (id m : ℕ) (rs : List AccountBalance)
    → All IsFunded rs
    → All IsFunded (update_available id (pos m) rs)
unfolding update_available
update_available-funded id m [] a = tt
update_available-funded id m (x ∷ xs) a =
    (with_available-IsFunded id m x a.0, update_available-funded id m xs a.1)

pub update_available-TableOk :
    (id m n : ℕ) (rs : List AccountBalance)
    → TableOk n rs
    → TableOk n (update_available id (pos m) rs)
update_available-TableOk id m n rs ok = record {
  keyed = update_available-Keyed id (pos m) n rs ok.keyed;
  funded = update_available-funded id m rs ok.funded;
}
