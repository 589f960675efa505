-- ===== src/Governance/Finding.antt =====
-- What the rows that the governance handlers find are: rows of the id and the user that were asked for.
use text.Mathlib.Text.{◌==◌ as str_eq}
use text.Mathlib.TextEquality.{eq_iff}
use tiger_swap.Prelude.{
  ℕ, ◌≡◌, ◌≢◌, refl, Bool, true, not, ◌&&◌, List, [], ◌∷◌, some, inl, inr, arith, ◌==◌, ==_iff,
  Bool-cases, String, ap, sym, ◌∙◌,
}
use tiger_swap.Prelude.Int.{ℤ, pos}
use tiger_swap.Governance.Amounts.{Text}
use tiger_swap.Governance.Tables.{VeLock, Gauge, GaugeVote, Bribe}
use tiger_swap.Governance.Locks.{is_lock, find_lock}
use tiger_swap.Governance.Gauges.{text_eq, one_of, find_active, is_vote, find_vote}
use tiger_swap.Governance.Bribes.{find_bribe, is_zero_share}
use tiger_swap.Governance.Effects.{Among}

both : (a b : Bool) → (a && b) ≡ true → (a ≡ true) × (b ≡ true)
both a b h = ground arith

pub text_eq_sound : (t u : Text) → text_eq t u ≡ true → t ≡ u
unfolding text_eq
text_eq_sound [] [] h = refl
text_eq_sound [] (d ∷ ds) h = absurd (cc)
text_eq_sound (c ∷ cs) [] h = absurd (cc)
text_eq_sound (c ∷ cs) (d ∷ ds) h =
    let parts = both (c == d) (text_eq cs ds) h in
    let first = (==_iff c d).0 parts.0 in let rest = text_eq_sound cs ds parts.1 in cc

pub text_eq_empty : (t : Text) → not (text_eq t []) ≡ true → t ≢ []
unfolding text_eq
text_eq_empty [] h = absurd (cc)
text_eq_empty (c ∷ cs) h = λ e. cc

pub one_of-Among : (t : Text) (us : List Text) → one_of t us ≡ true → Among t us
unfolding one_of
one_of-Among t [] h = absurd (cc)
one_of-Among t (u ∷ us) h = elim (Bool-cases (text_eq t u)) [
  | inl same ↦ inl (text_eq_sound t u same)
  | inr other ↦ inr (one_of-Among t us (rw other at h))
]

pub find_lock_own :
    (id : ℕ) (user : String) (ls : List VeLock) (lock : VeLock)
    → find_lock id user ls ≡ some lock
    → (lock.id ≡ id) × (lock.user_id ≡ user)
unfolding find_lock is_lock
find_lock_own id user [] lock h = absurd (cc)
find_lock_own id user (l ∷ ls) lock h = elim (Bool-cases (l.id == id && str_eq l.user_id user)) [
  | inl hit ↦
      let parts = both (l.id == id) (str_eq l.user_id user) hit in
      let found : some l ≡ some lock = rw (hit, find_lock) at h in
      let same : l ≡ lock = cc in
      (
        ap (λ (x : VeLock). x.id) (sym same) ∙ (==_iff _ _).0 parts.0,
        ap (λ (x : VeLock). x.user_id) (sym same) ∙ (eq_iff _ _).0 parts.1,
      )
  | inr miss ↦ find_lock_own id user ls lock (rw (miss, find_lock) at h)
]

pub find_active_live :
    (id : ℕ) (gs : List Gauge) (gauge : Gauge)
    → find_active id gs ≡ some gauge
    → (gauge.id ≡ id) × (gauge.active ≡ true)
unfolding find_active
find_active_live id [] gauge h = absurd (cc)
find_active_live id (g ∷ gs) gauge h = elim (Bool-cases (g.id == id && g.active)) [
  | inl hit ↦
      let parts = both (g.id == id) g.active hit in
      let found : some g ≡ some gauge = rw (hit, find_active) at h in
      let same : g ≡ gauge = cc in
      (
        ap (λ (x : Gauge). x.id) (sym same) ∙ (==_iff _ _).0 parts.0,
        ap (λ (x : Gauge). x.active) (sym same) ∙ parts.1,
      )
  | inr miss ↦ find_active_live id gs gauge (rw (miss, find_active) at h)
]

pub find_bribe_id :
    (id : ℕ) (bs : List Bribe) (bribe : Bribe) → find_bribe id bs ≡ some bribe → bribe.id ≡ id
unfolding find_bribe
find_bribe_id id [] bribe h = absurd (cc)
find_bribe_id id (b ∷ bs) bribe h = elim (Bool-cases (b.id == id)) [
  | inl hit ↦
      let found : some b ≡ some bribe = rw (hit, find_bribe) at h in
      let same : b ≡ bribe = cc in ap (λ (x : Bribe). x.id) (sym same) ∙ (==_iff _ _).0 hit
  | inr miss ↦ find_bribe_id id bs bribe (rw (miss, find_bribe) at h)
]

pub find_vote_own :
    (user : String) (gauge_id : ℕ) (vs : List GaugeVote) (vote : GaugeVote)
    → find_vote user gauge_id vs ≡ some vote
    → (vote.user_id ≡ user) × (vote.gauge_id ≡ gauge_id)
unfolding find_vote is_vote
find_vote_own user gauge_id [] vote h = absurd (cc)
find_vote_own user gauge_id (v ∷ vs) vote h =
    elim (Bool-cases (str_eq v.user_id user && v.gauge_id == gauge_id)) [
      | inl hit ↦
          let parts = both (str_eq v.user_id user) (v.gauge_id == gauge_id) hit in
          let found : some v ≡ some vote = rw (hit, find_vote) at h in
          let same : v ≡ vote = cc in
          (
            ap (λ (x : GaugeVote). x.user_id) (sym same) ∙ (eq_iff _ _).0 parts.0,
            ap (λ (x : GaugeVote). x.gauge_id) (sym same) ∙ (==_iff _ _).0 parts.1,
          )
      | inr miss ↦ find_vote_own user gauge_id vs vote (rw (miss, find_vote) at h)
    ]

pub is_zero_share_nonzero : (z : ℤ) → not (is_zero_share z) ≡ true → z ≢ pos 0
unfolding is_zero_share
is_zero_share_nonzero z h = λ e. (let bad : not (is_zero_share (pos 0)) ≡ true = rw e at h in cc)
