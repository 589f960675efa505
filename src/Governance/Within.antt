-- ===== src/Governance/Within.antt =====
-- A user's votes fit the user's voting power when a vote is granted.
use text.Mathlib.Text.{◌==◌ as str_eq}
use text.Mathlib.TextEquality.{eq_iff}
use text.Mathlib.TextPositions.{eq_refl}
use tiger_swap.Prelude.{
  ℕ, ◌+◌, ◌≡◌, refl, true, false, List, [], ◌∷◌, Option, none, some, ◌⊎◌, inl, inr, arith, String,
  ◌==◌, ==_iff, Option-cases, ap, sym, ◌∙◌, subst,
}
use tiger_swap.Prelude.Int.{ℤ, pos, ◌≤ℤ◌}
use tiger_swap.Governance.Tables.{Gauge, GaugeVote, Tables, Site, Env, Result, ok, refused}
use tiger_swap.Governance.Power.{sum_power}
use tiger_swap.Governance.Gauges.{VoteBody, VoteReply, vote, is_vote, find_vote}
use tiger_swap.Governance.Ballots.{
  number, tally, by_user, Unvoted, VoteStands, here, later, find_vote-VoteStands, find_vote-Unvoted,
  tally-save, VoteStands-is_vote, elsewhere, weigh_lem,
}
use tiger_swap.Governance.Totals.{Counted}
use tiger_swap.Governance.Rules.{Post}
use tiger_swap.Governance.Effects.{Votes, cast, recorded, weighed}
use tiger_swap.Governance.Voting.{vote-Votes}

module _ (user : String) (id : ℕ) where
  tally-Unvoted :
      (vs : List GaugeVote)
      → Unvoted user id vs
      → tally (by_user user) vs ≡ tally (elsewhere user id) vs
  unfolding tally is_vote
  tally-Unvoted [] h = refl
  tally-Unvoted (x ∷ vs) h = ground (arith, tally-Unvoted vs h.1)

  -- The user's votes are the vote for the gauge and those for others.
  tally-VoteStands :
      {n : ℕ} {v : GaugeVote} {vs : List GaugeVote}
      → VoteStands user id n v vs
      → tally (by_user user) vs ≡ tally (elsewhere user id) vs + number v.weight
  unfolding tally is_vote
  tally-VoteStands (here v vs e b) =
      let mine : str_eq v.user_id user ≡ true = ground arith in
      let same : (v.gauge_id == id) ≡ true = ground arith in
      let who : v.user_id ≡ user = (eq_iff v.user_id user).0 mine in
      let which : v.gauge_id ≡ id = (==_iff _ _).0 same in
      let rest : Unvoted user id vs =
        subst (λ u. Unvoted u id vs) who (subst (λ g. Unvoted v.user_id g vs) which b.2) in
      rw (mine, same) (omega (arith, tally-Unvoted vs rest))
  tally-VoteStands (later v x vs e below b f) = ground (arith, tally-VoteStands f)

  by_found :
      {n : ℕ} {v : GaugeVote} {vs : List GaugeVote}
      → VoteStands user id n v vs
      → str_eq v.user_id user ≡ true
  unfolding is_vote
  by_found f = ground (arith, VoteStands-is_vote user id f)

module _ (user : String) (id w : ℕ) (g : Gauge) (previous : Option ℤ) (t : Tables)
    (c : Counted t) where
  recorded-by :
      tally (by_user user) (recorded user id w g previous t).votes
      ≡ w + tally (elsewhere user id) t.votes
  unfolding recorded cast tally
  recorded-by = elim (Option-cases (find_vote user id t.votes)) [
    | inl missing ↦
        rw (missing, cast, eq_refl user)
          (omega (arith, tally-Unvoted user id t.votes (find_vote-Unvoted user id t.votes missing)))
    | inr (v, voted) ↦
        let at = find_vote-VoteStands user id t.next_id v t.votes c.ballots voted in
        let saved = tally-save user id (by_user user) w (λ _. refl) at in
        rw (voted, cast)
          (omega (arith, rw (by_found user id at) at saved, tally-VoteStands user id at))
  ]

  recorded-other :
      (other : String)
      → str_eq user other ≡ false
      → tally (by_user other) (recorded user id w g previous t).votes
        ≡ tally (by_user other) t.votes
  unfolding recorded cast tally
  recorded-other other ne = elim (Option-cases (find_vote user id t.votes)) [
    | inl missing ↦ rw (missing, cast, ne) (omega arith)
    | inr (v, voted) ↦
        let at = find_vote-VoteStands user id t.next_id v t.votes c.ballots voted in
        let saved = tally-save user id (by_user other) w (λ _. refl) at in
        let who : v.user_id ≡ user = (eq_iff v.user_id user).0 (by_found user id at) in
        let not_other : str_eq v.user_id other ≡ false =
          subst (λ u. str_eq u other ≡ false) (sym who) ne in
        rw (voted, cast) (omega (arith, rw not_other at saved))
  ]

module _ (env : Env) (s : Site) (c : Counted s.tables) (user other : String) where
  abbrev pub FitsPower : VoteReply → Site → Type 0
  FitsPower r t =
      (reading : ℕ) × ((r.voting_power ≡ pos 0)
        ⊎ (sum_power env user (env.clock reading) s.tables.locks (pos 0) ≡ some r.voting_power))
      × (pos (tally (by_user user) t.tables.votes) ≤ℤ r.voting_power)
      × (tally (by_user other) t.tables.votes ≡ tally (by_user other) s.tables.votes)

  Votes-FitsPower :
      (body : Option VoteBody) (r : VoteReply) (t : Site)
      → str_eq user other ≡ false
      → Votes env s t user body r
      → FitsPower r t
  Votes-FitsPower body r t ne v =
      let lem = weigh_lem user r.gauge_id s.tables.next_id s.tables.votes r.weight none c.ballots in
      let whole =
        recorded-by user r.gauge_id r.weight v.gauge (weighed user r.gauge_id r.weight s.tables).1
          s.tables c in
      let after = ap (λ (x : Tables). tally (by_user user) x.votes) v.is_recorded ∙ whole in
      let fits : pos (r.weight + tally (elsewhere user r.gauge_id) s.tables.votes)
          ≤ℤ r.voting_power =
        subst (λ (x : ℤ × Option ℤ). x.0 ≤ℤ r.voting_power) lem v.fits in
      (
        v.reading,
        v.is_power,
        subst (λ (n : ℕ). pos n ≤ℤ r.voting_power) (sym after) fits,
        ap (λ (x : Tables). tally (by_user other) x.votes) v.is_recorded
            ∙ recorded-other user r.gauge_id r.weight v.gauge _ s.tables c other ne,
      )

-- On tables whose votes and totals agree, Vote either is refused and changes nothing, or leaves the
-- user's votes for all gauges together within the voting power that it answers, which is the sum of the
-- powers of the user's locks at that time, or 0 where it could not be read. The votes of any other user
-- weigh as before.
pub vote_within_power :
    (env : Env) (s : Site) (c : Counted s.tables) (user other : String) (body : Option VoteBody)
    → str_eq user other ≡ false
    → Post s (FitsPower env s c user other) (vote env (some user) body s)
vote_within_power env s c user other body ne =
    within (vote env (some user) body s) (vote-Votes env s user body)
  where
    within :
        (x : Result VoteReply × Site)
        → Post s (λ r t. Votes env s t user body r) x
        → Post s (FitsPower env s c user other) x
    within (ok r, t) p = (p.0, Votes-FitsPower env s c user other body r t ne p.1)
    within (refused e, t) p = p
