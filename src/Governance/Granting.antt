-- ===== src/Governance/Granting.antt =====
-- AddBribe and ClaimBribe, and the handlers of gauges but Vote, do what they are meant to.
use tiger_swap.Prelude.{
  ℕ, ◌+◌, ◌≡◌, refl, Bool, true, false, Option, none, some, inl, inr, arith, String, ap, sym, ◌∙◌,
  Bool-cases, Option-cases, if◌then◌else◌, List, [], ◌∷◌, ◌==◌,
}
use tiger_swap.Prelude.Int.{ℤ}
use tiger_swap.Governance.Amounts.{trim_space, parse_amount, parse_amount_or_zero}
use tiger_swap.Governance.Tables.{
  Gauge, Bribe, Tables, Site, Env, unauthorized, bad_body, bad_id, no_gauge_name, bad_gauge_type,
  gauge_not_found, bad_token, bribe_not_found, no_vote, no_weight, zero_share, already_claimed,
  database, Result, ok, refused, called, pure, require_some, write, ◌>>=◌,
}
use tiger_swap.Governance.Gauges.{
  GaugeBody, WeightBody, allowed_gauge_types, create_gauge, set_gauge_weight, set_weight,
  find_gauge,
}
use tiger_swap.Governance.Bribes.{
  BribeBody, ClaimReply, allowed_settlement_assets, add_bribe, claim_bribe, create_claim, has_claim,
  put_claim,
}
use tiger_swap.Governance.Rules.{
  Post, Since, require-Post, require_some-Post, require_amount-Post, query-Post, write-Post,
  write_end, time_now-Post, peek-Post, bind-Post, granted-Post,
}
use tiger_swap.Governance.Requests.{claiming, claimed}
use tiger_swap.Governance.Effects.{Effect, AddsGauge, SetsWeight, Funds, Claimed, claims}
use tiger_swap.Governance.Finding.{
  text_eq_empty, one_of-Among, find_active_live, find_bribe_id, find_vote_own,
  is_zero_share_nonzero,
}
use tiger_swap.Governance.Opening.{parse_amount_pos}

set_weight-missing :
    (id n : ℕ) (active : Option Bool) (gs : List Gauge)
    → find_gauge id gs ≡ none
    → set_weight id n active gs ≡ gs
unfolding set_weight find_gauge
set_weight-missing id n active [] h = refl
set_weight-missing id n active (g ∷ gs) h = elim (Bool-cases (g.id == id)) [
  | inl hit ↦ absurd (let bad : some g ≡ none = rw (hit, find_gauge) at h in cc)
  | inr miss ↦
      rw (miss, set_weight)
        (ap (λ (r : List Gauge). g ∷ r)
          (set_weight-missing id n active gs (rw (miss, find_gauge) at h)))
]

module _ (env : Env) (s : Site) where
  pub add_bribe-Funds :
      (user : Option String) (body : Option BribeBody)
      → Post s (λ b t. Funds env s t user body b) (add_bribe env user body s)
  unfolding add_bribe
  add_bribe-Funds user body =
      let Q : Bribe → Site → Type 0 = λ b t. Funds env s t user body b in
      require_some-Post s Q s user unauthorized _ (omega arith, refl)
        λ u who.
          require_some-Post s Q s body bad_body _ (omega arith, refl)
            λ req asked.
              require_some-Post s Q s req.gauge_id bad_id _ (omega arith, refl)
                λ g for_gauge.
                  require_amount-Post s Q s (parse_amount req.amount) _ (omega arith, refl)
                    λ n amount.
                      require-Post s Q s _ bad_token _ (omega arith, refl)
                        λ asset.
                          query-Post s Q s env gauge_not_found _ _ (omega arith, refl)
                            (require_some-Post s Q (called s) _ gauge_not_found _
                              (omega arith, refl)
                              λ live is_live. time_now-Post s Q (called s) env _ (
                                query-Post s Q (called (called s)) env database _ _
                                  (omega arith, refl)
                                  (peek-Post s Q _ _ _ (
                                    write-Post s Q _ env database _ _ (omega arith, refl)
                                      (
                                        omega arith,
                                        record {
                                          funder = u;
                                          is_funder = who;
                                          request = req;
                                          is_request = asked;
                                          gauge_id = g;
                                          is_gauge = for_gauge;
                                          amount = n;
                                          is_amount = amount;
                                          is_positive = parse_amount_pos req.amount n amount;
                                          is_asset =
                                              one_of-Among (env.upper (trim_space req.token))
                                                allowed_settlement_assets asset;
                                          active = live;
                                          is_active = is_live;
                                          has_key =
                                              (find_active_live g s.tables.gauges live is_live).0;
                                          is_live =
                                              (find_active_live g s.tables.gauges live is_live).1;
                                          reading = (called s).calls;
                                          is_later = omega arith;
                                          in_time = omega arith;
                                          is_reply = refl;
                                          is_put = refl;
                                        },
                                      )))))

  -- A claim is created at most once.
  abbrev Claims : ℕ → String → ℤ → Unit {0} → Site → Type 0
  Claims id user share _ t =
      (has_claim id user s.tables.claims ≡ false) × (t.tables ≡ put_claim id user share s.tables)

  create_claim-Claims :
      (t : Site) (id : ℕ) (user : String) (share : ℤ)
      → Since s t
      → Post s (Claims id user share) (create_claim env id user share t)
  unfolding create_claim write
  create_claim-Claims t id user share h =
      decided (has_claim id user t.tables.claims) (env.faults t.calls) refl
    where
      decided :
          (b c : Bool)
          → has_claim id user t.tables.claims ≡ b
          → Post s (Claims id user share) (
              if b
              then (refused already_claimed, called t)
              else if c
              then (refused already_claimed, called t)
              else (
                ok tt,
                record { tables = put_claim id user share t.tables; calls = t.calls + 1 },
              ))
      decided true c e = (omega (arith, h.0), h.1)
      decided false true e = (omega (arith, h.0), h.1)
      decided false false e = (
        omega (arith, h.0),
        (
          ap (λ (x : Tables). has_claim id user x.claims) (sym h.1) ∙ e,
          ap (put_claim id user share) h.1,
        ),
      )

  pub claim_bribe-Claimed :
      (u : String) (i : ℕ)
      → Post s (λ r t. Claimed env s t u i r) (claim_bribe env (some u) (some i) s)
  unfolding claim_bribe
  claim_bribe-Claimed u i =
      let Q : ClaimReply → Site → Type 0 = λ r t. Claimed env s t u i r in
      granted-Post s Q s (some u) u unauthorized _ refl (
        granted-Post s Q s (some i) i bad_id _ refl (
          query-Post s Q s env database _ _ (omega arith, refl)
            (require_some-Post s Q (called s) _ bribe_not_found _ (omega arith, refl)
              λ b found.
                query-Post s Q (called s) env no_vote _ _ (omega arith, refl)
                  (require_some-Post s Q (called (called s)) _ no_vote _ (omega arith, refl)
                    λ v voted.
                      require_some-Post s Q _ _ no_weight _ (omega arith, refl)
                        λ share paid.
                          require-Post s Q _ _ zero_share _ (omega arith, refl)
                            λ nonzero.
                              bind-Post s Q _ (Claims b.id u share) (create_claim env b.id u share)
                                _ (create_claim-Claims _ b.id u share (omega arith, refl))
                                λ _ t later done. (
                                  omega (arith, later),
                                  record {
                                    bribe = b;
                                    is_bribe = found;
                                    has_key = find_bribe_id i s.tables.bribes b found;
                                    is_token = refl;
                                    ballot = v;
                                    is_ballot = voted;
                                    has_owner =
                                        (find_vote_own u b.gauge_id s.tables.votes v voted).0;
                                    has_gauge =
                                        (find_vote_own u b.gauge_id s.tables.votes v voted).1;
                                    is_share = paid;
                                    is_some = is_zero_share_nonzero share nonzero;
                                    is_first = done.0;
                                    is_put = done.1;
                                  },
                                )))))

  pub claim_bribe-Effect :
      (user : Option String) (id : Option ℕ)
      → Post s (λ r t. Effect env s t (claiming user id) (claimed r)) (claim_bribe env user id s)
  unfolding claim_bribe ◌>>=◌
  claim_bribe-Effect none id = (omega arith, refl)
  claim_bribe-Effect (some u) none = (omega arith, refl)
  claim_bribe-Effect (some u) (some i) =
      claim_by (claim_bribe env (some u) (some i) s) (claim_bribe-Claimed u i)
    where
      claim_by :
          (x : Result ClaimReply × Site)
          → Post s (λ r t. Claimed env s t u i r) x
          → Post s (λ r t. Effect env s t (claiming (some u) (some i)) (claimed r)) x
      claim_by (ok r, t) p = (p.0, claims u i r p.1)
      claim_by (refused e, t) p = p

  pub create_gauge-Adds :
      (body : Option GaugeBody) → Post s (λ _ t. AddsGauge env s t body) (create_gauge env body s)
  unfolding create_gauge
  create_gauge-Adds body =
      let Q : Unit {0} → Site → Type 0 = λ _ t. AddsGauge env s t body in
      require_some-Post s Q s body bad_body _ (omega arith, refl)
        λ req asked.
          require-Post s Q s _ no_gauge_name _ (omega arith, refl)
            λ named.
              require-Post s Q s _ bad_gauge_type _ (omega arith, refl)
                λ kind.
                  write_end s Q s env database _ (omega arith, refl)
                    (record {
                      request = req;
                      is_request = asked;
                      is_named = text_eq_empty _ named;
                      is_kind =
                          one_of-Among (env.lower (trim_space req.gauge_type)) allowed_gauge_types
                            kind;
                      is_added = refl;
                    })

  -- An update that no row matches changes nothing, so a refusal after it has not either.
  pub set_gauge_weight-Sets :
      (id : Option ℕ) (body : Option WeightBody)
      → Post s (λ _ t. SetsWeight s t id body) (set_gauge_weight env id body s)
  unfolding set_gauge_weight
  set_gauge_weight-Sets id body =
      let Q : Unit {0} → Site → Type 0 = λ _ t. SetsWeight s t id body in
      require_some-Post s Q s id bad_id _ (omega arith, refl)
        λ i key.
          require_some-Post s Q s body bad_body _ (omega arith, refl)
            λ req asked.
              require_amount-Post s Q s (parse_amount_or_zero req.weight) _ (omega arith, refl)
                λ n weight. peek-Post s Q _ _ _ (
                  write-Post s Q s env database _ _ (omega arith, refl)
                    (matched i n req key asked weight))
    where
      matched :
          (i n : ℕ) (req : WeightBody)
          → id ≡ some i
          → body ≡ some req
          → parse_amount_or_zero req.weight ≡ inr n
          → Post s
              (λ _ t. SetsWeight s t id body)
              ((require_some (find_gauge i s.tables.gauges) gauge_not_found >>= λ _. pure tt)
                (record {
                  tables = record s.tables { gauges = set_weight i n req.active s.tables.gauges };
                  calls = s.calls + 1;
                }))
      matched i n req key asked weight = elim (Option-cases (find_gauge i s.tables.gauges)) [
        | inl missing ↦
            require_some-Post s (λ _ t. SetsWeight s t id body) _ _ gauge_not_found _
              (
                omega arith,
                ap (λ (gs : List Gauge). record s.tables { gauges = gs })
                    (set_weight-missing i n req.active s.tables.gauges missing),
              )
              λ g found. absurd (let bad : none ≡ some g = sym missing ∙ found in cc)
        | inr (g, found) ↦
            granted-Post s (λ _ t. SetsWeight s t id body) _ _ g gauge_not_found _ found
              (
                omega arith,
                record {
                  key = i;
                  is_key = key;
                  request = req;
                  is_request = asked;
                  weight = n;
                  is_weight = weight;
                  gauge = g;
                  is_there = found;
                  is_set = refl;
                },
              )
      ]
