-- ===== src/Governance/Voting.antt =====
-- Vote does what it is meant to.
use tiger_swap.Prelude.{
  ℕ, ◌≤◌, ◌≡◌, refl, Bool, true, false, not, Option, none, some, ◌⊎◌, inl, inr, arith, String,
  if◌then◌else◌,
}
use tiger_swap.Prelude.Int.{ℤ, pos, ltb_ℤ, ◌≤ℤ◌}
use tiger_swap.Governance.Amounts.{parse_amount_or_zero}
use tiger_swap.Governance.Tables.{
  Gauge, GaugeVote, Tables, Site, Env, unauthorized, bad_body, bad_id, gauge_not_found, over_power,
  database, panicked, Action, Result, ok, refused, called, require_some, ◌>>=◌,
}
use tiger_swap.Governance.Power.{sum_power, total_voting_power}
use tiger_swap.Governance.Gauges.{
  VoteBody, VoteReply, vote, record_vote, put_vote, find_gauge, find_vote, weigh, votes_of, revoted,
  set_total,
}
use tiger_swap.Governance.Rules.{
  Post, Since, Done, require-Post, require_some-Post, require_amount-Post, query-Post,
  time_now-Post, granted-Post, in_transaction-Post, query-Done, require_some-Done, write-then_Done,
  write-Done,
}
use tiger_swap.Governance.Requests.{voting, voted}
use tiger_swap.Governance.Finding.{find_active_live}
use tiger_swap.Governance.Effects.{Effect, votes, Votes, cast, recorded}

-- The power that a vote is measured by: none after a failed call.
abbrev pub IsPower : Env → Site → String → ℕ → ℤ → Type 0
IsPower env t user at p = (p ≡ pos 0) ⊎ (sum_power env user at t.tables.locks (pos 0) ≡ some p)

fits_in : (p w : ℤ) → not (ltb_ℤ p w) ≡ true → w ≤ℤ p
fits_in p w h = ground arith

module _ {A : Type 0} (s : Site) (Q : A → Site → Type 0) where
  pub power-Post :
      (t : Site) (env : Env) (user : String) (at : ℕ) (k : ℤ → Action A)
      → Since s t
      → ((p : ℤ) → IsPower env t user at p → Post s Q (k p (called t)))
      → Post s Q ((total_voting_power env user at >>= k) t)
  unfolding total_voting_power ◌>>=◌
  power-Post t env user at k h next =
      counted (env.faults t.calls) (sum_power env user at t.tables.locks (pos 0)) refl
    where
      counted :
          (b : Bool) (o : Option ℤ)
          → sum_power env user at t.tables.locks (pos 0) ≡ o
          → Post s Q (
              ((λ _. if b then (ok (pos 0), called t) else require_some o panicked (called t))
                  >>= k)
                t)
      counted true o e = next (pos 0) (inl refl)
      counted false none e = (omega (arith, h.0), h.1)
      counted false (some p) e = next p (inr e)

-- What the in_transaction does to the tables.
abbrev Recorded : Tables → String → ℕ → ℕ → Option ℤ → Site → Type 0
Recorded before user gauge_id weight previous t =
    (g : Gauge) × (find_gauge gauge_id before.gauges ≡ some g)
    × (t.tables ≡ recorded user gauge_id weight g previous before)

module _ (env : Env) (s : Site) where
  put_vote-Done :
      (t : Site) (later : s.calls ≤ t.calls) (user : String) (gauge_id weight : ℕ)
      (o : Option GaugeVote)
      → Done s
          (λ u. u.tables ≡ cast user gauge_id weight o t.tables)
          (put_vote env user gauge_id weight o t)
  unfolding put_vote cast
  put_vote-Done t later user gauge_id weight none =
      write-Done s (λ u. u.tables ≡ cast user gauge_id weight none t.tables) t later env database _
        refl
  put_vote-Done t later user gauge_id weight (some v) =
      write-Done s (λ u. u.tables ≡ cast user gauge_id weight (some v) t.tables) t later env
        database _ refl

  Done-map :
      (R S : Site → Type 0) (r : Result (Unit {0}) × Site)
      → ((u : Site) → R u → S u)
      → Done s R r
      → Done s S r
  Done-map R S (ok tt, u) f p = (p.0, f u p.1)
  Done-map R S (refused e, u) f p = p

  record_vote-Done :
      (t : Site) (later : s.calls ≤ t.calls) (user : String) (gauge_id weight : ℕ)
      (previous : Option ℤ)
      → Done s
          (Recorded t.tables user gauge_id weight previous)
          (record_vote env user gauge_id weight previous t)
  unfolding record_vote recorded
  record_vote-Done t later user gauge_id weight previous =
      let R : Site → Type 0 = Recorded t.tables user gauge_id weight previous in
      query-Done s R t later env database _ _ (
        require_some-Done s R (called t) (omega (arith, later)) env _ database _ λ g found.
          write-then_Done s R (called t) (omega (arith, later)) env database _ _ (
            query-Done s R _ (omega (arith, later)) env database _ _ (
              Done-map
                (λ u.
                  u.tables
                  ≡ cast user gauge_id weight (find_vote user gauge_id t.tables.votes)
                      (record t.tables {
                        gauges =
                            set_total gauge_id (revoted g.total_voted previous weight)
                              t.tables.gauges;
                      }))
                R _ (λ u same. (g, found, same))
                (put_vote-Done _ (omega (arith, later)) user gauge_id weight
                  (find_vote user gauge_id t.tables.votes)))))

module _ (env : Env) (s : Site) where
  pub vote-Votes :
      (u : String) (body : Option VoteBody)
      → Post s (λ r t. Votes env s t u body r) (vote env (some u) body s)
  unfolding vote
  vote-Votes u body =
      let Q : VoteReply → Site → Type 0 = λ r t. Votes env s t u body r in
      granted-Post s Q s (some u) u unauthorized _ refl (
        require_some-Post s Q s body bad_body _ (omega arith, refl)
          λ req asked.
            require_some-Post s Q s req.gauge_id bad_id _ (omega arith, refl)
              λ g for_gauge.
                require_amount-Post s Q s (parse_amount_or_zero req.weight) _ (omega arith, refl)
                  λ n weight.
                    query-Post s Q s env gauge_not_found _ _ (omega arith, refl)
                      (require_some-Post s Q (called s) _ gauge_not_found _ (omega arith, refl)
                        λ live is_live. time_now-Post s Q (called s) env _ (
                          power-Post s Q (called (called s)) env u _ _ (omega arith, refl)
                            λ p is_power.
                              query-Post s Q _ env database _ _ (omega arith, refl)
                                (require-Post s Q _ _ over_power _ (omega arith, refl)
                                  λ fits.
                                    in_transaction-Post s Q
                                      (Recorded s.tables u g n
                                        (weigh g (votes_of u s.tables.votes) (pos n) none).1)
                                      _ env database _ _ (omega arith, refl)
                                      (record_vote-Done env (called (called (called (called s))))
                                        (called (called (called (called (called s))))) (omega arith)
                                        u g n _)
                                      λ t later (gauge, found, done). (
                                        omega (arith, later),
                                        record {
                                          request = req;
                                          is_request = asked;
                                          is_gauge = for_gauge;
                                          is_weight = weight;
                                          reading = (called s).calls;
                                          is_later = omega arith;
                                          is_second = refl;
                                          is_epoch = refl;
                                          is_power = is_power;
                                          active = live;
                                          is_active = is_live;
                                          has_key =
                                              (find_active_live g s.tables.gauges live is_live).0;
                                          is_live =
                                              (find_active_live g s.tables.gauges live is_live).1;
                                          gauge = gauge;
                                          is_there = found;
                                          fits = fits_in p _ fits;
                                          is_recorded = done;
                                        },
                                      )))))

  pub vote-Effect :
      (user : Option String) (body : Option VoteBody)
      → Post s (λ r t. Effect env s t (voting user body) (voted r)) (vote env user body s)
  unfolding vote ◌>>=◌
  vote-Effect none body = (omega arith, refl)
  vote-Effect (some u) body = cast_by (vote env (some u) body s) (vote-Votes u body)
    where
      cast_by :
          (x : Result VoteReply × Site)
          → Post s (λ r t. Votes env s t u body r) x
          → Post s (λ r t. Effect env s t (voting (some u) body) (voted r)) x
      cast_by (ok r, t) p = (p.0, votes u body r p.1)
      cast_by (refused e, t) p = p
