-- ===== src/Governance/Counting.antt =====
-- What holds of the gauges and votes after any requests.
use tiger_swap.Prelude.{
  ℕ, ◌+◌, ◌≤◌, ◌≡◌, refl, Bool, List, [], ◌∷◌, Option, some, inl, inr, arith, ◌==◌, Bool-cases, All,
  All-map, ap, sym, subst,
}
use tiger_swap.Prelude.Int.{pos}
use tiger_swap.Governance.Amounts.{Text, trim_space}
use tiger_swap.Governance.Tables.{Gauge, Tables, Site, Env, Result, ok, refused}
use tiger_swap.Governance.Gauges.{set_weight, add_gauge}
use tiger_swap.Governance.Ballots.{tally, for_gauge, Ballots, Ballots-widen, tally-new}
use tiger_swap.Governance.Totals.{IsCounted, Counted, recorded-Counted}
use tiger_swap.Governance.Requests.{Request, Reply, perform, serve}
use tiger_swap.Governance.Effects.{
  Effect, nothing, opens, withdraws, adds_gauge, votes, sets_weight, funds, claims,
}
use tiger_swap.Governance.Rules.{Post}
use tiger_swap.Governance.Decay.{IsEnv}
use tiger_swap.Governance.Refinement.{perform_refines}

-- An invariant that every effect keeps holds after any requests.
module _ (env : Env) (good : IsEnv env) (I : Site → Type 0)
    (idle : (s t : Site) → s.calls ≤ t.calls → t.tables ≡ s.tables → I s → I t)
    (keep : (s t : Site) (q : Request) (r : Reply)
      → s.calls ≤ t.calls
      → Effect env s t q r
      → I s
      → I t) where
  perform_keeps : (q : Request) (s : Site) → I s → I (perform env q s).1
  perform_keeps q s i = kept (perform env q s) (perform_refines env good q s)
    where
      kept : (x : Result Reply × Site) → Post s (λ r t. Effect env s t q r) x → I x.1
      kept (ok r, t) p = keep s t q r p.0 p.1 i
      kept (refused e, t) p = idle s t p.0 p.1 i

  pub serve_keeps : (qs : List Request) (s : Site) → I s → I (serve env qs s).1
  unfolding serve
  serve_keeps [] s i = i
  serve_keeps (q ∷ qs) s i = serve_keeps qs (perform env q s).1 (perform_keeps q s i)

pub set_weight-All {κ} :
    (P : Gauge → Type κ) (id w : ℕ) (active : Option Bool)
    → ((g : Gauge) (a : Bool) → P g → P (record g { weight = some (pos w); active = a }))
    → (gs : List Gauge) → All P gs
    → All P (set_weight id w active gs)
unfolding set_weight
set_weight-All P id w active f [] a = tt
set_weight-All P id w active f (g ∷ gs) a = elim (Bool-cases (g.id == id)) [
  | inl hit ↦ rw hit (f g _ a.0, set_weight-All P id w active f gs a.1)
  | inr miss ↦ rw miss (a.0, set_weight-All P id w active f gs a.1)
]

widened :
    (t u : Tables)
    → u.votes ≡ t.votes
    → u.gauges ≡ t.gauges
    → t.next_id ≤ u.next_id
    → Counted t
    → Counted u
widened t u vs gs n c = record {
  ballots =
      subst (λ x. Ballots u.next_id x) (sym vs)
        (Ballots-widen t.next_id u.next_id t.votes n c.ballots);
  gauges =
      subst (λ x. All (IsCounted x u.next_id) u.gauges) (sym vs)
        (subst (λ x. All (IsCounted t.votes u.next_id) x) (sym gs)
          (All-map t.gauges c.gauges
            λ g k. record { older = omega (arith, k.older, n); counted = k.counted }));
}

add_gauge-Counted :
    (name kind reference : Text) (t : Tables)
    → Counted t
    → Counted (add_gauge name kind reference t)
add_gauge-Counted name kind reference t c = record {
  ballots = Ballots-widen t.next_id (t.next_id + 1) t.votes (omega arith) c.ballots;
  gauges = (
    record {
      older = omega arith;
      counted =
          ap (λ (i : ℕ). some (pos i))
            (sym (tally-new t.next_id t.next_id t.votes (omega arith) c.ballots));
    },
    All-map t.gauges c.gauges λ g k. record { older = omega (arith, k.older); counted = k.counted },
  );
}

set_weight-Counted :
    (id w : ℕ) (active : Option Bool) (t : Tables)
    → Counted t
    → Counted (record t { gauges = set_weight id w active t.gauges })
set_weight-Counted id w active t c = record {
  ballots = c.ballots;
  gauges =
      set_weight-All (IsCounted t.votes t.next_id) id w active
        (λ g a k. record { older = k.older; counted = k.counted }) t.gauges c.gauges;
}

module _ (env : Env) (s t : Site) where
  Effect-Counted :
      (q : Request) (r : Reply) → Effect env s t q r → Counted s.tables → Counted t.tables
  Effect-Counted _ _ (nothing q only e) c = subst Counted (sym e) c
  Effect-Counted _ _ (opens user body r o) c =
      subst Counted (sym o.is_added) (widened s.tables _ refl refl (omega arith) c)
  Effect-Counted _ _ (withdraws user id a w) c =
      subst Counted (sym w.is_saved) (widened s.tables _ refl refl (omega arith) c)
  Effect-Counted _ _ (adds_gauge body a) c = subst Counted (sym a.is_added) (
      add_gauge-Counted (trim_space a.request.name) (env.lower (trim_space a.request.gauge_type))
        (trim_space a.request.reference) s.tables c)
  Effect-Counted _ _ (votes u body r v) c =
      subst Counted (sym v.is_recorded)
        (recorded-Counted u r.gauge_id r.weight s.tables v.gauge c v.is_there)
  Effect-Counted _ _ (sets_weight id body w) c =
      subst Counted (sym w.is_set) (set_weight-Counted w.key w.weight w.request.active s.tables c)
  Effect-Counted _ _ (funds user body b f) c =
      subst Counted (sym f.is_put) (widened s.tables _ refl refl (omega arith) c)
  Effect-Counted _ _ (claims u id r k) c =
      subst Counted (sym k.is_put) (widened s.tables _ refl refl (omega arith) c)

abbrev pub empty_tables : Tables
empty_tables = record { locks = []; gauges = []; votes = []; bribes = []; claims = []; next_id = 0 }

abbrev pub new_site : Site
new_site = record { tables = empty_tables; calls = 0 }

-- Whatever is asked of a new service, and whichever calls of the database fail, no user has two votes
-- for a gauge, and the total recorded with each gauge is the sum of the weights of the votes for it.
pub votes_counted :
    (env : Env)
    → IsEnv env
    → (qs : List Request)
    → Ballots (serve env qs new_site).1.tables.next_id (serve env qs new_site).1.tables.votes
      × All
          (λ g.
            g.total_voted
            ≡ some (pos (tally (for_gauge g.id) (serve env qs new_site).1.tables.votes)))
          (serve env qs new_site).1.tables.gauges
votes_counted env good qs =
    let c =
      serve_keeps env good (λ s. Counted s.tables) (λ s t _ e c. subst Counted (sym e) c)
        (λ s t q r _ e c. Effect-Counted env s t q r e c) qs new_site
        (record { ballots = tt; gauges = tt }) in
    (c.ballots, All-map _ c.gauges λ g k. k.counted)
