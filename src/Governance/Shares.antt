-- ===== src/Governance/Shares.antt =====
-- What the claims of a bribe pay: ClaimBribe divides by the votes at the time of funding, and multiplies
-- by the vote at the time of the claim.
use native.Mathlib.Nat.{div-mul-le_self, le_of_mul-le-mul_right}
use tiger_swap.Prelude.{
  ℕ, zero, suc, ◌+◌, ◌*◌, ◌/◌, ◌≤◌, ◌<◌, ◌≡◌, refl, List, [], ◌∷◌, some, inl, inr, arith, String,
  ◌==◌, ==_iff, if◌then◌else◌, Bool-cases, ap, sym, ◌∙◌, subst,
}
use tiger_swap.Prelude.Int.{pos, ◌≤ℤ◌}
use tiger_swap.Governance.Amounts.{Text}
use tiger_swap.Governance.Tables.{GaugeVote, Bribe, Tables, Site, Env, Result, ok, refused}
use tiger_swap.Governance.Power.{div_floor}
use tiger_swap.Governance.Gauges.{find_vote}
use tiger_swap.Governance.Bribes.{
  ClaimReply, sum_weights, new_bribe, share_of, find_bribe, claim_bribe,
}
use tiger_swap.Governance.Ballots.{number, tally, for_gauge, Ballots}
use tiger_swap.Governance.Decay.{mul-div_self, div_mono, mul_mono, pos-mul, pos-sum}
use tiger_swap.Governance.Totals.{Counted}
use tiger_swap.Governance.Rules.{Post}
use tiger_swap.Governance.Effects.{Claimed}
use tiger_swap.Governance.Granting.{claim_bribe-Claimed}

-- What the claims of a bribe pay if the voters of its gauge all claim with these votes.
pub payable : Bribe → List GaugeVote → ℕ
payable b [] = 0
payable b (v ∷ vs) =
    (if v.gauge_id == b.gauge_id then number (share_of b.total_weight v.weight b.amount) else 0)
    + payable b vs

-- The snapshot at funding is what the votes weigh.
sum_weights-tally :
    (id n : ℕ) (vs : List GaugeVote) (a : ℕ)
    → Ballots n vs
    → sum_weights id vs (pos a) ≡ pos (a + tally (for_gauge id) vs)
unfolding sum_weights tally
sum_weights-tally id n [] a b = ap pos (omega arith)
sum_weights-tally id n (v ∷ vs) a b = elim (Bool-cases (v.gauge_id == id)) [
  | inl hit ↦
      rw (b.1.is_number, sum_weights)
        (rw (hit, pos-sum a (number v.weight))
          (sum_weights-tally id v.id vs (a + number v.weight) b.3 ∙ ap pos (omega arith)))
  | inr miss ↦
      rw (b.1.is_number, sum_weights)
        (rw miss (sum_weights-tally id v.id vs a b.3 ∙ ap pos (omega arith)))
]

share_of-pos :
    (total w a : ℕ)
    → 0 < total
    → share_of (some (pos total)) (some (pos w)) (some (pos a)) ≡ some (pos (a * w / total))
unfolding share_of div_floor
share_of-pos zero w a h = elim h [ ]
share_of-pos (suc k) w a h = rw (pos-mul a w) refl

payable-none :
    (b : Bribe) → b.total_weight ≡ some (pos 0) → (vs : List GaugeVote) → payable b vs ≡ 0
unfolding payable share_of
payable-none b none_voted [] = refl
payable-none b none_voted (v ∷ vs) = elim (Bool-cases (v.gauge_id == b.gauge_id)) [
  | inl hit ↦ rw (hit, none_voted) (omega (arith, payable-none b none_voted vs))
  | inr miss ↦ rw miss (omega (arith, payable-none b none_voted vs))
]

module _ (b : Bribe) (a total : ℕ) (full : b.amount ≡ some (pos a))
    (snapshot : b.total_weight ≡ some (pos total)) where
  share-pos :
      (w : ℕ)
      → 0 < total
      → share_of b.total_weight (some (pos w)) b.amount ≡ some (pos (a * w / total))
  share-pos w p = rw (full, snapshot) (share_of-pos total w a p)

  payable-bound :
      (n : ℕ) (vs : List GaugeVote)
      → 0 < total
      → Ballots n vs
      → payable b vs * total ≤ a * tally (for_gauge b.gauge_id) vs
  unfolding payable tally
  payable-bound n [] p k = omega arith
  payable-bound n (v ∷ vs) p k =
      let rest = payable-bound v.id vs p k.3 in
      let share : share_of b.total_weight v.weight b.amount
          ≡ some (pos (a * number v.weight / total)) =
        ap (λ w. share_of b.total_weight w b.amount) k.1.is_number
        ∙ share-pos (number v.weight) p in
      elim (Bool-cases (v.gauge_id == b.gauge_id)) [
        | inl hit ↦
            rw (hit, share) (grind (arith, rest, div-mul-le_self (a * number v.weight) total))
        | inr miss ↦ rw miss (grind (arith, rest))
      ]

  payable-le :
      (n : ℕ) (vs : List GaugeVote)
      → total ≡ tally (for_gauge b.gauge_id) vs
      → Ballots n vs
      → payable b vs ≤ a
  payable-le n vs same k = elim (Bool-cases (total == 0)) [
    | inl none_voted ↦ omega (
      arith,
      payable-none b (snapshot ∙ ap (λ (i : ℕ). some (pos i)) ((==_iff _ _).0 none_voted)) vs,
    )
    | inr voted ↦
        let bound = payable-bound n vs (ground arith) k in
        le_of_mul-le-mul_right (rw (← same) at bound) (ground arith)
  ]

-- A bribe that is funded while the gauge's votes are these pays no more than its amount if each voter of
-- the gauge claims with the vote of that time.
pub payable_within :
    (t : Tables) (id gauge_id epoch amount : ℕ) (token : Text) (funder : String)
    → Counted t
    → payable
        (new_bribe id gauge_id epoch token amount (sum_weights gauge_id t.votes (pos 0)) funder)
        t.votes
      ≤ amount
payable_within t id gauge_id epoch amount token funder c =
    let total = tally (for_gauge gauge_id) t.votes in
    let snapshot =
      sum_weights-tally gauge_id t.next_id t.votes 0 c.ballots ∙ ap pos (omega arith) in
    payable-le
      (new_bribe id gauge_id epoch token amount (sum_weights gauge_id t.votes (pos 0)) funder)
      amount total refl (ap some snapshot) t.next_id t.votes refl c.ballots

le-div_mul : (k a w total : ℕ) → 0 < total → k * total ≤ w → k * a ≤ a * w / total
le-div_mul k a w total p h =
    let more : k * a * total ≤ a * w = grind (arith, mul_mono a (k * total) w h) in
    subst (λ n. n ≤ a * w / total) (mul-div_self (k * a) total p)
      (div_mono (k * a * total) (a * w) total p more)

-- The share of a claim is taken by the user's vote at the time of the claim. So where that vote weighs
-- k times what all votes for the gauge weighed at funding or more, a claim that is granted pays k times
-- the bribe or more.
pub claim_overpays :
    (env : Env) (s : Site) (user : String) (id k amount total weight : ℕ) (bribe : Bribe)
    (v : GaugeVote)
    → find_bribe id s.tables.bribes ≡ some bribe
    → bribe.amount ≡ some (pos amount)
    → bribe.total_weight ≡ some (pos total)
    → find_vote user bribe.gauge_id s.tables.votes ≡ some v
    → v.weight ≡ some (pos weight)
    → 0 < total
    → k * total ≤ weight
    → Post s (λ r t. pos (k * amount) ≤ℤ r.amount) (claim_bribe env (some user) (some id) s)
claim_overpays env s user id k amount total weight bribe v found full snapshot voted weighs p h =
    overpaid (claim_bribe env (some user) (some id) s) (claim_bribe-Claimed env s user id)
  where
    share_is :
        (r : ClaimReply) (t : Site)
        → Claimed env s t user id r
        → some r.amount ≡ some (pos (amount * weight / total))
    share_is r t c =
        let same_bribe : c.bribe ≡ bribe = let e = sym c.is_bribe ∙ found in cc in
        let same_vote : c.ballot ≡ v =
          let e =
            sym c.is_ballot
            ∙ (ap (λ (b : Bribe). find_vote user b.gauge_id s.tables.votes) same_bribe ∙ voted) in
          cc in
        sym c.is_share
        ∙ ap (λ (b : Bribe). share_of b.total_weight c.ballot.weight b.amount) same_bribe
        ∙ ap (λ (x : GaugeVote). share_of bribe.total_weight x.weight bribe.amount) same_vote
        ∙ ap (λ w. share_of bribe.total_weight w bribe.amount) weighs
        ∙ share-pos bribe amount total full snapshot weight p

    overpaid :
        (x : Result ClaimReply × Site)
        → Post s (λ r t. Claimed env s t user id r) x
        → Post s (λ r t. pos (k * amount) ≤ℤ r.amount) x
    overpaid (refused e, t) p = p
    overpaid (ok r, t) c =
        let is : r.amount ≡ pos (amount * weight / total) = let e = share_is r t c.1 in cc in
        (c.0, rw is (omega (arith, le-div_mul k amount weight total p h)))
