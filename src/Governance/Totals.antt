-- ===== src/Governance/Totals.antt =====
-- The vote totals of the gauges are what the votes weigh, whatever is asked of the service.
use tiger_swap.Prelude.{
  ℕ, ◌+◌, ◌-◌, ◌≤◌, ◌<◌, ◌≡◌, refl, true, false, List, [], ◌∷◌, Option, none, some, inl, inr, arith,
  String, ◌==◌, ==_iff, if◌then◌else◌, Bool-cases, Option-cases, All, ap, sym, ◌∙◌, subst,
}
use tiger_swap.Prelude.Int.{ℤ, pos, ◌+ℤ◌, ◌-ℤ◌}
use tiger_swap.Governance.Tables.{Gauge, GaugeVote, Tables}
use tiger_swap.Governance.Gauges.{
  revoted, with_total, set_total, find_gauge, find_vote, save_vote, is_vote, add_vote,
}
use tiger_swap.Governance.Ballots.{
  number, tally, for_gauge, Ballots, reweighed, VoteStands, find_vote-VoteStands, find_vote-Unvoted,
  tally-save, VoteStands-is_vote, VoteStands-IsBallot, save_vote-Ballots, weigh_lem,
}
use tiger_swap.Governance.Effects.{cast, recorded, weighed}

-- The gauge's total is what its votes weigh.
pub record IsCounted (vs : List GaugeVote) (n : ℕ) (g : Gauge) : Type 0 where
  pub older : g.id < n
  pub counted : g.total_voted ≡ some (pos (tally (for_gauge g.id) vs))

pub record Counted (t : Tables) : Type 0 where
  pub ballots : Ballots t.next_id t.votes
  pub gauges : All (IsCounted t.votes t.next_id) t.gauges

find_gauge-All {κ} :
    (P : Gauge → Type κ) (id : ℕ) (gs : List Gauge) (g : Gauge)
    → All P gs
    → find_gauge id gs ≡ some g
    → P g × (g.id ≡ id)
unfolding find_gauge
find_gauge-All P id [] g a e = absurd (cc)
find_gauge-All P id (x ∷ gs) g a e = elim (Bool-cases (x.id == id)) [
  | inl hit ↦
      let same : some x ≡ some g = rw (hit, find_gauge) at e in
      let eq : x ≡ g = cc in subst (λ y. P y × (y.id ≡ id)) eq (a.0, (==_iff _ _).0 hit)
  | inr miss ↦ find_gauge-All P id gs g a.1 (rw (miss, find_gauge) at e)
]

-- The new total, where what is replaced is a part of the old one.
revoted-none : (total w : ℕ) → revoted (some (pos total)) none w ≡ pos (total + w)
unfolding revoted ◌+ℤ◌
revoted-none total w = ground arith

revoted-some :
    (total old w : ℕ)
    → old ≤ total
    → revoted (some (pos total)) (some (pos old)) w ≡ pos (total - old + w)
unfolding revoted ◌+ℤ◌ ◌-ℤ◌
revoted-some total old w h = ground arith

-- The gauges after a vote whose total is `m`, if the votes weigh that much.
set_total-IsCounted :
    (id m n k : ℕ) (vs ws : List GaugeVote)
    → n ≤ k
    → ((i : ℕ) → tally (for_gauge i) ws ≡ (if i == id then m else tally (for_gauge i) vs))
    → (gs : List Gauge) → All (IsCounted vs n) gs
    → All (IsCounted ws k) (set_total id (pos m) gs)
unfolding set_total
set_total-IsCounted id m n k vs ws h moved [] a = tt
set_total-IsCounted id m n k vs ws h moved (g ∷ gs) a =
    (counted_gauge, set_total-IsCounted id m n k vs ws h moved gs a.1)
  where
    counted_gauge : IsCounted ws k (with_total id (pos m) g)
    counted_gauge = elim (Bool-cases (g.id == id)) [
      | inl hit ↦ record {
        older = omega (arith, a.0.older, h);
        counted = rw hit (ap (λ (i : ℕ). some (pos i)) (sym (moved g.id ∙ rw hit refl)));
      }
      | inr miss ↦ record {
        older = omega (arith, a.0.older, h);
        counted =
            rw miss (a.0.counted ∙ ap (λ (i : ℕ). some (pos i)) (sym (moved g.id ∙ rw miss refl)));
      }
    ]

module _ (user : String) (id w : ℕ) (t : Tables) (g : Gauge) (ok : Counted t) where
  abbrev old_total : ℕ
  old_total = tally (for_gauge id) t.votes

  counted_in :
      (i : ℕ)
      → (if id == i then w else 0) + tally (for_gauge i) t.votes
        ≡ (if i == id then old_total + w else tally (for_gauge i) t.votes)
  counted_in i = elim (Bool-cases (i == id)) [
    | inl hit ↦
        let same : i ≡ id = (==_iff _ _).0 hit in
        let self : (id == id) ≡ true = ground arith in rw same (rw self (omega arith))
    | inr miss ↦ let other : (id == i) ≡ false = ground arith in rw (miss, other) (omega arith)
  ]

  -- A first vote of the user for the gauge.
  first_vote :
      find_vote user id t.votes ≡ none
      → find_gauge id t.gauges ≡ some g
      → Counted (
          add_vote user id w
            (record t { gauges = set_total id (revoted g.total_voted none w) t.gauges }))
  unfolding tally
  first_vote missing found =
      let (counted, same_id) =
        find_gauge-All (IsCounted t.votes t.next_id) id t.gauges g ok.gauges found in
      let total : revoted g.total_voted none w ≡ pos (old_total + w) =
        rw (counted.counted, same_id) (revoted-none old_total w) in
      record {
        ballots = (
          omega arith,
          record { cast_later = omega (arith, counted.older, same_id); is_number = refl },
          find_vote-Unvoted user id t.votes missing,
          ok.ballots,
        );
        gauges = rw total (
            set_total-IsCounted id (old_total + w) t.next_id (t.next_id + 1) t.votes _ (omega arith)
              (λ i. counted_in i) t.gauges ok.gauges);
      }

  module _ (v : GaugeVote) (voted : find_vote user id t.votes ≡ some v) where
    found_there : VoteStands user id t.next_id v t.votes
    found_there = find_vote-VoteStands user id t.next_id v t.votes ok.ballots voted

    for_id : (v.gauge_id == id) ≡ true
    unfolding is_vote
    for_id = ground (arith, VoteStands-is_vote user id found_there)

    part : number v.weight ≤ old_total
    part = grind (arith, tally-save user id (for_gauge id) 0 (λ _. refl) found_there, for_id)

    saved_in :
        (i : ℕ)
        → tally (for_gauge i) (save_vote (reweighed w v) t.votes)
          ≡ (if i == id then old_total - number v.weight + w else tally (for_gauge i) t.votes)
    saved_in i =
        let saved = tally-save user id (for_gauge i) w (λ _. refl) found_there in
        elim (Bool-cases (i == id)) [
          | inl hit ↦
              let same : i ≡ id = (==_iff _ _).0 hit in
              let self : (id == id) ≡ true = ground arith in
              let saved_here = tally-save user id (for_gauge id) w (λ _. refl) found_there in
              rw same (rw self (omega (arith, rw for_id at saved_here, part)))
          | inr miss ↦
              let other : (v.gauge_id == i) ≡ false = ground (arith, for_id) in
              rw miss (omega (arith, rw other at saved))
        ]

    -- A vote in the place of the user's earlier one.
    second_vote :
        find_gauge id t.gauges ≡ some g
        → Counted (record t {
          gauges = set_total id (revoted g.total_voted v.weight w) t.gauges;
          votes = save_vote (reweighed w v) t.votes;
        })
    second_vote found =
        let (counted, same_id) =
          find_gauge-All (IsCounted t.votes t.next_id) id t.gauges g ok.gauges found in
        let ballot = VoteStands-IsBallot user id found_there in
        let total : revoted g.total_voted v.weight w ≡ pos (old_total - number v.weight + w) =
          ap (λ o. revoted o v.weight w) counted.counted
          ∙ ap (λ (i : ℕ). revoted (some (pos (tally (for_gauge i) t.votes))) v.weight w) same_id
          ∙ ap (λ o. revoted (some (pos old_total)) o w) ballot.is_number
          ∙ revoted-some old_total (number v.weight) w part in
        record {
          ballots = save_vote-Ballots user id w found_there;
          gauges = rw total (
              set_total-IsCounted id _ t.next_id t.next_id t.votes _ (omega arith) saved_in t.gauges
                ok.gauges);
        }

  pub recorded-Counted :
      find_gauge id t.gauges ≡ some g → Counted (recorded user id w g (weighed user id w t).1 t)
  unfolding recorded cast
  recorded-Counted found =
      let replaced =
        ap (λ (x : ℤ × Option ℤ). x.1) (weigh_lem user id t.next_id t.votes w none ok.ballots) in
      rw (replaced, recorded)
        (elim (Option-cases (find_vote user id t.votes)) [
          | inl missing ↦ rw (missing, cast) (first_vote missing found)
          | inr (v, voted) ↦ rw (voted, cast) (second_vote v voted found)
        ])
