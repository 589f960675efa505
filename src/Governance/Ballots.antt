-- ===== src/Governance/Ballots.antt =====
-- The table of gauge votes: what its rows weigh for a gauge and for a user, and how a vote changes that.
use text.Mathlib.Text.{◌==◌ as str_eq}
use text.Mathlib.TextEquality.{eq_iff}
use native.Mathlib.Nat.{add-zero}
use tiger_swap.Prelude.{
  ℕ, ◌+◌, ◌≤◌, ◌<◌, ◌≡◌, refl, Bool, true, false, not, ◌&&◌, List, [], ◌∷◌, Option, none, some, inl,
  inr, arith, String, ◌==◌, if◌then◌else◌, Bool-cases, All, ==_iff, ap, ◌∙◌, subst,
}
use tiger_swap.Prelude.Int.{ℤ, pos, negsuc, ◌+ℤ◌}
use tiger_swap.Governance.Tables.{GaugeVote}
use tiger_swap.Governance.Gauges.{votes_of, weigh, is_vote, find_vote, save_vote}

-- The number that a weight is, 0 for any other.
abbrev pub number : Option ℤ → ℕ
number none = 0
number (some (pos n)) = n
number (some (negsuc n)) = 0

-- What the votes that a test selects weigh.
unfoldable pub tally : (GaugeVote → Bool) → List GaugeVote → ℕ
tally p [] = 0
tally p (v ∷ vs) = (if p v then number v.weight else 0) + tally p vs

abbrev pub for_gauge : ℕ → GaugeVote → Bool
for_gauge gauge_id v = v.gauge_id == gauge_id

abbrev pub by_user : String → GaugeVote → Bool
by_user user v = str_eq v.user_id user

-- A vote was cast for a gauge that was there, and weighs a number.
pub record IsBallot (v : GaugeVote) : Type 0 where
  pub cast_later : v.gauge_id < v.id
  pub is_number : v.weight ≡ some (pos (number v.weight))

abbrev pub Unvoted : String → ℕ → List GaugeVote → Type 0
Unvoted user gauge_id vs = All (λ v. is_vote user gauge_id v ≡ false) vs

-- Ids fall along the table, from below `n`, and no user has two votes for a gauge.
abbrev pub Ballots : ℕ → List GaugeVote → Type 0
Ballots n [] = Unit {0}
Ballots n (v ∷ vs) = (v.id < n) × IsBallot v × Unvoted v.user_id v.gauge_id vs × Ballots v.id vs

pub Ballots-widen : (n m : ℕ) (vs : List GaugeVote) → n ≤ m → Ballots n vs → Ballots m vs
Ballots-widen n m [] h b = tt
Ballots-widen n m (v ∷ vs) h b = (omega (arith, h, b.0), b.1, b.2, b.3)

-- A gauge that is not older than the votes has none.
pub tally-new : (n m : ℕ) (vs : List GaugeVote) → n ≤ m → Ballots n vs → tally (for_gauge m) vs ≡ 0
unfolding tally
tally-new n m [] h b = refl
tally-new n m (v ∷ vs) h b =
    ground (arith, tally-new v.id m vs (omega (arith, h, b.0)) b.3, b.1.cast_later)

abbrev pub reweighed : ℕ → GaugeVote → GaugeVote
reweighed w v = record v { weight = some (pos w) }

-- Saving a row changes no row with a smaller id.
save_vote-below :
    (v : GaugeVote) (n : ℕ) (vs : List GaugeVote) → n ≤ v.id → Ballots n vs → save_vote v vs ≡ vs
unfolding save_vote
save_vote-below v n [] h b = refl
save_vote-below v n (x ∷ vs) h b =
    let other : (x.id == v.id) ≡ false = ground (arith, b.0, h) in
    rw (other, save_vote)
      (ap (λ (r : List GaugeVote). x ∷ r) (save_vote-below v x.id vs (omega (arith, h, b.0)) b.3))

-- The vote that is found, at the place where it stands.
pub data VoteStands (user : String) (gauge_id : ℕ) : ℕ → GaugeVote → List GaugeVote → Type 0 where
  here :
      {n : ℕ} (v : GaugeVote) (vs : List GaugeVote)
      → is_vote user gauge_id v ≡ true
      → Ballots n (v ∷ vs)
      → VoteStands user gauge_id n v (v ∷ vs)
  later :
      {n : ℕ} (v x : GaugeVote) (vs : List GaugeVote)
      → is_vote user gauge_id x ≡ false
      → v.id < x.id
      → Ballots n (x ∷ vs)
      → VoteStands user gauge_id x.id v vs
      → VoteStands user gauge_id n v (x ∷ vs)

module _ (user : String) (gauge_id : ℕ) where
  found_below :
      {n : ℕ} {v : GaugeVote} {vs : List GaugeVote} → VoteStands user gauge_id n v vs → v.id < n
  found_below (here v vs e b) = b.0
  found_below (later v x vs e below b f) = omega (arith, below, b.0)

  pub find_vote-VoteStands :
      (n : ℕ) (v : GaugeVote) (vs : List GaugeVote)
      → Ballots n vs
      → find_vote user gauge_id vs ≡ some v
      → VoteStands user gauge_id n v vs
  unfolding find_vote
  find_vote-VoteStands n v [] b e = absurd (cc)
  find_vote-VoteStands n v (x ∷ vs) b e = elim (Bool-cases (is_vote user gauge_id x)) [
    | inl hit ↦
        let same : some x ≡ some v = rw (hit, find_vote) at e in
        subst (λ y. VoteStands user gauge_id n y (x ∷ vs)) (cc) (here x vs hit b)
    | inr miss ↦
        let f = find_vote-VoteStands x.id v vs b.3 (rw (miss, find_vote) at e) in
        later v x vs miss (found_below f) b f
  ]

  pub find_vote-Unvoted :
      (vs : List GaugeVote) → find_vote user gauge_id vs ≡ none → Unvoted user gauge_id vs
  unfolding find_vote
  find_vote-Unvoted [] e = tt
  find_vote-Unvoted (x ∷ vs) e = elim (Bool-cases (is_vote user gauge_id x)) [
    | inl hit ↦ absurd (let bad : some x ≡ none = rw (hit, find_vote) at e in cc)
    | inr miss ↦ (miss, find_vote-Unvoted vs (rw (miss, find_vote) at e))
  ]

  -- A new weight of the vote replaces its old one in every tally that selects it.
  pub tally-save :
      (p : GaugeVote → Bool) (w : ℕ)
      → ((x : GaugeVote) → p (reweighed w x) ≡ p x)
      → {n : ℕ} {v : GaugeVote} {vs : List GaugeVote} → VoteStands user gauge_id n v vs
      → tally p (save_vote (reweighed w v) vs) + (if p v then number v.weight else 0)
        ≡ tally p vs + (if p v then w else 0)
  unfolding tally save_vote
  tally-save p w same (here v vs e b) =
      let self : (v.id == v.id) ≡ true = ground arith in
      rw (self, save_vote-below (reweighed w v) v.id vs (omega arith) b.3, same v)
        (elim (Bool-cases (p v)) [ inl y ↦ rw y (omega arith) | inr n ↦ rw n (omega arith) ])
  tally-save p w same (later v x vs e below b f) =
      let other : (x.id == v.id) ≡ false = ground arith in
      rw other (omega (arith, tally-save p w same f))

  save_vote-Unvoted :
      (v : GaugeVote) (w : ℕ) (u : String) (g : ℕ) (vs : List GaugeVote)
      → is_vote u g v ≡ false
      → Unvoted u g vs
      → Unvoted u g (save_vote (reweighed w v) vs)
  unfolding save_vote is_vote
  save_vote-Unvoted v w u g [] e h = tt
  save_vote-Unvoted v w u g (x ∷ vs) e h = elim (Bool-cases (x.id == v.id)) [
    | inl hit ↦ rw hit (e, save_vote-Unvoted v w u g vs e h.1)
    | inr miss ↦ rw miss (h.0, save_vote-Unvoted v w u g vs e h.1)
  ]

  VoteStands-All {κ} :
      (P : GaugeVote → Type κ) {n : ℕ} {v : GaugeVote} {vs : List GaugeVote}
      → VoteStands user gauge_id n v vs
      → All P vs
      → P v
  VoteStands-All P (here v vs e b) a = a.0
  VoteStands-All P (later v x vs e below b f) a = VoteStands-All P f a.1

  pub VoteStands-is_vote :
      {n : ℕ} {v : GaugeVote} {vs : List GaugeVote}
      → VoteStands user gauge_id n v vs
      → is_vote user gauge_id v ≡ true
  VoteStands-is_vote (here v vs e b) = e
  VoteStands-is_vote (later v x vs e below b f) = VoteStands-is_vote f

  pub VoteStands-IsBallot :
      {n : ℕ} {v : GaugeVote} {vs : List GaugeVote} → VoteStands user gauge_id n v vs → IsBallot v
  VoteStands-IsBallot (here v vs e b) = b.1
  VoteStands-IsBallot (later v x vs e below b f) = VoteStands-IsBallot f

  pub save_vote-Ballots :
      (w : ℕ) {n : ℕ} {v : GaugeVote} {vs : List GaugeVote}
      → VoteStands user gauge_id n v vs
      → Ballots n (save_vote (reweighed w v) vs)
  unfolding save_vote
  save_vote-Ballots w (here v vs e b) =
      let self : (v.id == v.id) ≡ true = ground arith in
      rw (self, save_vote-below (reweighed w v) v.id vs (omega arith) b.3)
        (b.0, record { cast_later = b.1.cast_later; is_number = refl }, b.2, b.3)
  save_vote-Ballots w (later v x vs e below b f) =
      let other : (x.id == v.id) ≡ false = ground arith in
      rw other (
        b.0,
        b.1,
        save_vote-Unvoted v w x.user_id x.gauge_id vs
            (VoteStands-All (λ y. is_vote x.user_id x.gauge_id y ≡ false) f b.2) b.2,
        save_vote-Ballots w f,
      )

-- What a user's votes for other gauges weigh.
abbrev pub elsewhere : String → ℕ → GaugeVote → Bool
elsewhere user gauge_id v = str_eq v.user_id user && not (v.gauge_id == gauge_id)

-- The weight of the vote that is there.
abbrev pub last_weight : Option ℤ → Option GaugeVote → Option ℤ
last_weight previous none = previous
last_weight previous (some v) = v.weight

pos-add : (a b : ℕ) → pos a +ℤ pos b ≡ pos (a + b)
unfolding ◌+ℤ◌
pos-add a b = ground arith

both : {m n : ℕ} (o p : Option ℤ) → m ≡ n → o ≡ p → ◌≡◌ {A = ℤ × Option ℤ} (pos m, o) (pos n, p)
both o p h k = cc

module _ (user : String) (gauge_id : ℕ) where
  find_vote-none :
      (vs : List GaugeVote) → Unvoted user gauge_id vs → find_vote user gauge_id vs ≡ none
  unfolding find_vote
  find_vote-none [] h = refl
  find_vote-none (x ∷ vs) h = rw (h.0, find_vote) (find_vote-none vs h.1)

  -- The loop of Vote over the user's votes.
  pub weigh_lem :
      (n : ℕ) (vs : List GaugeVote) (a : ℕ) (previous : Option ℤ)
      → Ballots n vs
      → weigh gauge_id (votes_of user vs) (pos a) previous ≡ (
        pos (a + tally (elsewhere user gauge_id) vs),
        last_weight previous (find_vote user gauge_id vs),
      )
  unfolding weigh votes_of tally find_vote is_vote
  weigh_lem n [] a previous b = rw add-zero
  weigh_lem n (x ∷ vs) a previous b = elim (Bool-cases (str_eq x.user_id user)) [
    | inl mine ↦ elim (Bool-cases (x.gauge_id == gauge_id)) [
      | inl same ↦
          let who : x.user_id ≡ user = (eq_iff x.user_id user).0 mine in
          let where_to : x.gauge_id ≡ gauge_id = (==_iff _ _).0 same in
          let none_left : Unvoted user gauge_id vs =
            subst (λ u. Unvoted u gauge_id vs) who
              (subst (λ g. Unvoted x.user_id g vs) where_to b.2) in
          rw (mine, same, b.1.is_number, weigh, find_vote)
            (rw same (
              weigh_lem x.id vs a (some (pos (number x.weight))) b.3
              ∙ both _ _ (omega arith) (ap (last_weight _) (find_vote-none vs none_left))))
      | inr there ↦
          rw (mine, there, b.1.is_number, weigh, find_vote)
            (rw (there, pos-add a (number x.weight))
              (weigh_lem x.id vs (a + number x.weight) previous b.3 ∙ both _ _ (omega arith) refl))
    ]
    | inr other ↦
        rw (other, weigh, find_vote)
          (weigh_lem x.id vs a previous b.3 ∙ both _ _ (omega arith) refl)
  ]
