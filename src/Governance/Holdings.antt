-- ===== src/Governance/Holdings.antt =====
-- The table of locks: one open lock for each user, and every amount that was locked is held or paid out.
use tiger_swap.Prelude.{
  ℕ, ◌+◌, ◌≤◌, ◌<◌, ◌≡◌, refl, true, false, List, [], ◌∷◌, some, inl, inr, arith, String, ◌==◌,
  if◌then◌else◌, Bool-cases, ap, subst,
}
use tiger_swap.Governance.Tables.{VeLock}
use tiger_swap.Governance.Locks.{is_open, count_open, is_lock, find_lock, save_lock}
use tiger_swap.Governance.Ballots.{number}

-- Ids fall along the table, from below `n`.
abbrev pub Keyed : ℕ → List VeLock → Type 0
Keyed n [] = Unit {0}
Keyed n (l ∷ ls) = (l.id < n) × Keyed l.id ls

-- What the locks that are not withdrawn hold.
unfoldable pub held : List VeLock → ℕ
held [] = 0
held (l ∷ ls) = (if l.withdrawn then 0 else number l.amount) + held ls

abbrev pub closed : VeLock → VeLock
closed l = record l { withdrawn = true }

save_lock-below :
    (lock : VeLock) (n : ℕ) (ls : List VeLock) → n ≤ lock.id → Keyed n ls → save_lock lock ls ≡ ls
unfolding save_lock
save_lock-below lock n [] h k = refl
save_lock-below lock n (l ∷ ls) h k =
    let other : (l.id == lock.id) ≡ false = ground (arith, k.0, h) in
    rw (other, save_lock)
      (ap (λ (r : List VeLock). l ∷ r) (save_lock-below lock l.id ls (omega (arith, h, k.0)) k.1))

module _ (id : ℕ) (user : String) (lock : VeLock) where
  find_lock-below :
      (n : ℕ) (ls : List VeLock) → Keyed n ls → find_lock id user ls ≡ some lock → lock.id < n
  unfolding find_lock
  find_lock-below n [] k e = absurd (cc)
  find_lock-below n (l ∷ ls) k e = elim (Bool-cases (is_lock id user l)) [
    | inl hit ↦
        let found : some l ≡ some lock = rw (hit, find_lock) at e in
        let same : l ≡ lock = cc in subst (λ (x : VeLock). x.id < n) same k.0
    | inr miss ↦ omega (arith, k.0, find_lock-below l.id ls k.1 (rw (miss, find_lock) at e))
  ]

  -- What is paid for a lock is no longer held.
  pub held-save :
      (n : ℕ) (ls : List VeLock)
      → Keyed n ls
      → lock.withdrawn ≡ false
      → find_lock id user ls ≡ some lock
      → held (save_lock (closed lock) ls) + number lock.amount ≡ held ls
  unfolding find_lock held save_lock
  held-save n [] k live e = absurd (cc)
  held-save n (l ∷ ls) k live e = elim (Bool-cases (is_lock id user l)) [
    | inl hit ↦
        let found : some l ≡ some lock = rw (hit, find_lock) at e in
        let same : l ≡ lock = cc in
        let self : (lock.id == lock.id) ≡ true = ground arith in
        let rest =
          save_lock-below (closed lock) l.id ls (omega (arith, ap (λ (x : VeLock). x.id) same))
            k.1 in
        rw (rest, same, self, live) (omega arith)
    | inr miss ↦
        let there = rw (miss, find_lock) at e in
        let below = find_lock-below l.id ls k.1 there in
        let other : (l.id == lock.id) ≡ false = ground arith in
        rw other (omega (arith, held-save l.id ls k.1 live there))
  ]

pub save_lock-Keyed :
    (lock : VeLock) (n : ℕ) (ls : List VeLock) → Keyed n ls → Keyed n (save_lock (closed lock) ls)
unfolding save_lock
save_lock-Keyed lock n [] k = tt
save_lock-Keyed lock n (l ∷ ls) k = elim (Bool-cases (l.id == lock.id)) [
  | inl hit ↦
      let same : l.id ≡ lock.id = ground arith in
      rw hit (
        omega (arith, k.0, same),
        subst (λ i. Keyed i (save_lock (closed lock) ls)) same (save_lock-Keyed lock l.id ls k.1),
      )
  | inr miss ↦ rw miss (k.0, save_lock-Keyed lock l.id ls k.1)
]

-- Closing a lock opens none.
pub count_open-save :
    (lock : VeLock) (user : String) (t : ℕ) (ls : List VeLock)
    → count_open user t (save_lock (closed lock) ls) ≤ count_open user t ls
unfolding count_open save_lock is_open
count_open-save lock user t [] = omega arith
count_open-save lock user t (l ∷ ls) = ground (arith, count_open-save lock user t ls)

-- As time passes locks expire.
pub count_open-antitone :
    (user : String) (t u : ℕ) (ls : List VeLock)
    → t ≤ u
    → count_open user u ls ≤ count_open user t ls
unfolding count_open is_open
count_open-antitone user t u [] h = omega arith
count_open-antitone user t u (l ∷ ls) h = ground (arith, count_open-antitone user t u ls h)
