-- ===== src/Governance/Tests.antt =====
-- The governance service at concrete requests, and the theorems there.
use tiger_swap.Prelude.{
  ℕ, ◌+◌, ◌*◌, ◌/◌, ◌≤◌, ◌≡◌, refl, inr, true, List, [], ◌∷◌, ◌++◌, Option, some, arith, ◌==◌, All,
}
use tiger_swap.Prelude.Int.{ℤ, pos, ◌≤ℤ◌, ◌+ℤ◌, ◌*ℤ◌}
use tiger_swap.Governance.Amounts.{
  codes, is_space, to_text, parse_amount, trim_space, trim_left, set_string, read_nat, read_digits,
}
use tiger_swap.Governance.Tables.{
  Env, Site, Result, ok, refused, status_of, query, peek, write, in_transaction, ◌>>=◌, VeLock,
  BribeClaim,
}
use tiger_swap.Governance.Power.{second, voting_power}
use tiger_swap.Governance.Locks.{new_lock, count_open, create_lock, withdraw_lock}
use tiger_swap.Governance.Gauges.{create_gauge, vote, find_vote, is_vote}
use tiger_swap.Governance.Bribes.{add_bribe, claim_bribe, find_bribe, sum_weights, new_bribe}
use tiger_swap.Governance.Requests.{
  Request, opening, withdrawing, adding_gauge, voting, funding, claiming, Reply, serve, perform,
}
use tiger_swap.Governance.Rules.{Post}
use tiger_swap.Governance.Effects.{Effect}
use tiger_swap.Governance.Decay.{IsEnv, div_mono, voting_power_falls}
use tiger_swap.Governance.Refinement.{perform_refines}
use tiger_swap.Governance.Ballots.{Ballots, tally, for_gauge}
use tiger_swap.Governance.Totals.{Counted}
use tiger_swap.Governance.Counting.{new_site, votes_counted}
use tiger_swap.Governance.Within.{FitsPower, vote_within_power}
use tiger_swap.Governance.Holdings.{held}
use tiger_swap.Governance.Escrow.{total_of, paid_in, paid_out, one_open_lock, locks_balance}
use tiger_swap.Governance.Reading.{parse_amount-to_text}
use tiger_swap.Governance.Shares.{payable, payable_within, claim_overpays}

abbrev week : ℕ
week = 604_800

-- The wall clock shows a second more at each call, and no call fails but the one with this number.
abbrev env : Env
env = record {
  faults = λ n. n == 1000;
  clock = λ n. (1_800_000_000 + n) * second;
  seconds = λ d. d / second;
  lower = λ t. t;
  upper = λ t. t;
}

env-IsEnv : IsEnv env
env-IsEnv = record {
  forward = λ a b h. omega (arith, h);
  whole = λ d h. omega arith;
  grows = λ d e h k. div_mono d e second (omega arith) h;
}

abbrev requests : List Request
requests =
    opening (some "ann")
      (some (record { amount = codes " 1000 "; duration_seconds = pos (4 * week) }))
    ∷ opening (some "ann") (some (record { amount = codes "5"; duration_seconds = pos (4 * week) }))
    ∷ opening (some "bob")
        (some (record { amount = codes "+800"; duration_seconds = pos (8 * week) }))
    ∷ opening (some "eve") (some (record { amount = codes "-1"; duration_seconds = pos week }))
    ∷ adding_gauge
        (some (record { name = codes "main"; gauge_type = codes "pool"; reference = [] }))
    ∷ adding_gauge (some (record { name = codes "odd"; gauge_type = codes "farm"; reference = [] }))
    ∷ voting (some "ann") (some (record { gauge_id = some 2; weight = codes "100" }))
    ∷ funding (some "bob")
        (some (record { gauge_id = some 2; token = codes "TGR"; amount = codes "50" }))
    ∷ voting (some "ann") (some (record { gauge_id = some 2; weight = codes "900" }))
    ∷ voting (some "bob") (some (record { gauge_id = some 2; weight = codes "801" }))
    ∷ claiming (some "ann") (some 4)
    ∷ claiming (some "ann") (some 4)
    ∷ withdrawing (some "bob") (some 1)
    ∷ []

-- The status of each error answer, and 0 for any other.
statuses : List (Result Reply) → List ℕ
statuses [] = []
statuses (ok r ∷ rs) = 0 ∷ statuses rs
statuses (refused e ∷ rs) = status_of e ∷ statuses rs

claims_paid : List BribeClaim → List (Option ℤ)
claims_paid [] = []
claims_paid (c ∷ cs) = c.amount ∷ claims_paid cs

-- Of a bribe of 50 that was funded on 100 votes, a vote of 900 later is paid 450.
served :
    (statuses (serve env requests new_site).0
      ≡ 0 ∷ 409 ∷ 0 ∷ 400 ∷ 0 ∷ 400 ∷ 0 ∷ 0 ∷ 0 ∷ 400 ∷ 0 ∷ 409 ∷ 400 ∷ [])
    × (claims_paid (serve env requests new_site).1.tables.claims ≡ some (pos 450) ∷ [])
unfolding statuses claims_paid serve status_of query peek write in_transaction ◌>>=◌ create_lock
    trim_space trim_left is_space set_string read_nat read_digits voting_power create_gauge vote
    ◌+ℤ◌ ◌*ℤ◌ add_bribe claim_bribe withdraw_lock
served = (refl, refl)

votes_counted_example :
    Ballots
      (serve env requests new_site).1.tables.next_id
      (serve env requests new_site).1.tables.votes
    × All
        (λ g.
          g.total_voted
          ≡ some (pos (tally (for_gauge g.id) (serve env requests new_site).1.tables.votes)))
        (serve env requests new_site).1.tables.gauges
votes_counted_example = votes_counted env env-IsEnv requests

one_open_lock_example :
    count_open "ann"
      (env.clock (serve env requests new_site).1.calls)
      (serve env requests new_site).1.tables.locks
    ≤ 1
one_open_lock_example =
    one_open_lock env env-IsEnv requests "ann" (env.clock (serve env requests new_site).1.calls)
      (omega arith)

locks_balance_example :
    total_of paid_out (serve env requests new_site).0
      + held (serve env requests new_site).1.tables.locks
    ≡ total_of paid_in (serve env requests new_site).0
locks_balance_example = locks_balance env env-IsEnv requests

-- Ann has locked 1000 and votes for the gauge 1.
abbrev site : Site
site = record {
  tables = record {
    locks = new_lock 0 "ann" 1000 (env.clock 0) (4 * week) ∷ [];
    gauges =
        record {
          id = 1;
          name = codes "main";
          gauge_type = codes "pool";
          reference = [];
          weight = some (pos 0);
          total_voted = some (pos 300);
          active = true;
        }
        ∷ [];
    votes = record { id = 2; user_id = "ann"; gauge_id = 1; weight = some (pos 300) } ∷ [];
    bribes =
        record {
          id = 3;
          gauge_id = 1;
          epoch = 0;
          token = codes "TGR";
          amount = some (pos 50);
          total_weight = some (pos 100);
          funder_id = "bob";
        }
        ∷ [];
    claims = [];
    next_id = 4;
  };
  calls = 10;
}

site-Counted : Counted site.tables
unfolding tally
site-Counted = record {
  ballots = (omega arith, record { cast_later = omega arith; is_number = refl }, tt, tt);
  gauges = (record { older = omega arith; counted = refl }, tt);
}

-- Ann votes again, with 999 in place of 300.
abbrev revote : Request
revote = voting (some "ann") (some (record { gauge_id = some 1; weight = codes "999" }))

perform_refines_example : Post site (λ r t. Effect env site t revote r) (perform env revote site)
perform_refines_example = perform_refines env env-IsEnv revote site

vote_within_power_example :
    Post site
      (FitsPower env site site-Counted "ann" "bob")
      (vote env (some "ann") (some (record { gauge_id = some 1; weight = codes "999" })) site)
vote_within_power_example =
    vote_within_power env site site-Counted "ann" "bob"
      (some (record { gauge_id = some 1; weight = codes "999" })) refl

claim_overpays_example :
    Post site (λ r t. pos (3 * 50) ≤ℤ r.amount) (claim_bribe env (some "ann") (some 3) site)
unfolding find_bribe find_vote is_vote
claim_overpays_example =
    claim_overpays env site "ann" 3 3 50 100 300 _ _ refl refl refl refl refl (omega arith)
      (omega arith)

payable_within_example :
    payable
      (new_bribe 4 1 7 (codes "TGR") 50 (sum_weights 1 site.tables.votes (pos 0)) "bob")
      site.tables.votes
    ≤ 50
payable_within_example = payable_within site.tables 4 1 7 50 (codes "TGR") "bob" site-Counted

parse_amount-to_text_example :
    parse_amount (32 ∷ [] ++ (to_text (pos 1800) ++ 10 ∷ 0x3000 ∷ [])) ≡ inr 1800
unfolding is_space
parse_amount-to_text_example =
    parse_amount-to_text (32 ∷ []) (10 ∷ 0x3000 ∷ []) 1800 (refl, tt) (refl, (refl, tt))
      (omega arith)

abbrev lock : VeLock
lock = new_lock 0 "ann" 1000 (env.clock 0) (4 * week)

voting_power_falls_example :
    (p : ℕ) × (q : ℕ) × (voting_power env lock (env.clock 100) ≡ some (pos p))
    × (voting_power env lock (env.clock 2_419_200) ≡ some (pos q))
    × (q ≤ p)
    × (p ≤ 1000)
    × (lock.unlock_time ≤ env.clock 2_419_200 → q ≡ 0)
voting_power_falls_example =
    voting_power_falls env env-IsEnv lock 1000
      (record { is_amount = refl; long = omega arith; short = omega arith }) (env.clock 100)
      (env.clock 2_419_200) (omega arith) (omega arith)
