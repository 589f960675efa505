-- ===== src/Governance/Gauges.antt =====
-- The handlers of gauges of backend/services/governance_service.go: CreateGauge, GetGauges, Vote and
-- SetGaugeWeight. UpdateColumn and Updates change the row with the id, and Save of a vote its row.
use mathlib.Core.List.{reverse}
use text.Mathlib.Text.{◌==◌ as str_eq}
use tiger_swap.Prelude.{
  ℕ, ◌+◌, Bool, true, false, not, ◌&&◌, ◌||◌, List, [], ◌∷◌, map, Option, none, some, ◌==◌,
  if◌then◌else◌, String,
}
use tiger_swap.Prelude.Int.{ℤ, pos, ◌+ℤ◌, ◌-ℤ◌, ltb_ℤ}
use tiger_swap.Governance.Amounts.{Text, trim_space, parse_amount_or_zero, codes}
use tiger_swap.Governance.Tables.{
  Gauge, GaugeVote, Tables, Env, unauthorized, bad_body, bad_id, no_gauge_name, bad_gauge_type,
  gauge_not_found, over_power, database, Action, pure, require, require_some, require_amount, peek,
  query, write, time_now, in_transaction, ◌>>=◌, ◌>>◌,
}
use tiger_swap.Governance.Power.{current_epoch, total_voting_power}

unfoldable pub text_eq : Text → Text → Bool
text_eq [] [] = true
text_eq [] (d ∷ ds) = false
text_eq (c ∷ cs) [] = false
text_eq (c ∷ cs) (d ∷ ds) = c == d && text_eq cs ds

unfoldable pub one_of : Text → List Text → Bool
unfolding text_eq
one_of t [] = false
one_of t (u ∷ us) = text_eq t u || one_of t us

abbrev pub allowed_gauge_types : List Text
allowed_gauge_types =
    codes "pool" ∷ codes "vault" ∷ codes "lending" ∷ codes "perps" ∷ codes "external" ∷ []

pub record GaugeBody : Type 0 where
  pub name : Text
  pub gauge_type : Text
  pub reference : Text

-- The vote column starts at its default, 0.
abbrev pub new_gauge : ℕ → Text → Text → Text → Gauge
new_gauge id name gauge_type reference = record {
  id = id;
  name = name;
  gauge_type = gauge_type;
  reference = reference;
  weight = some (pos 0);
  total_voted = some (pos 0);
  active = true;
}

abbrev pub add_gauge : Text → Text → Text → Tables → Tables
add_gauge name gauge_type reference t = record t {
  gauges = new_gauge t.next_id name gauge_type reference ∷ t.gauges;
  next_id = t.next_id + 1;
}

unfoldable pub create_gauge : Env → Option GaugeBody → Action (Unit {0})
unfolding trim_space one_of
create_gauge env body = do
  req ← require_some body bad_body
  require (not (text_eq (trim_space req.name) [])) no_gauge_name
  let gauge_type = env.lower (trim_space req.gauge_type)
  require (one_of gauge_type allowed_gauge_types) bad_gauge_type
  write env database (add_gauge (trim_space req.name) gauge_type (trim_space req.reference))

unfoldable pub active_gauges : List Gauge → List Gauge
active_gauges [] = []
active_gauges (g ∷ gs) = let rest = active_gauges gs in if g.active then g ∷ rest else rest

-- ORDER BY created_at ASC
unfoldable pub get_gauges : Env → Bool → Action (List Gauge)
unfolding active_gauges
get_gauges env only_active =
    query env database (λ t. reverse (if only_active then active_gauges t.gauges else t.gauges))

unfoldable pub find_gauge : ℕ → List Gauge → Option Gauge
find_gauge id [] = none
find_gauge id (g ∷ gs) = if g.id == id then some g else find_gauge id gs

-- WHERE id = ? AND active = true
unfoldable pub find_active : ℕ → List Gauge → Option Gauge
find_active id [] = none
find_active id (g ∷ gs) = if g.id == id && g.active then some g else find_active id gs

unfoldable pub votes_of : String → List GaugeVote → List GaugeVote
votes_of user [] = []
votes_of user (v ∷ vs) =
    let rest = votes_of user vs in if str_eq v.user_id user then v ∷ rest else rest

-- The loop over the user's votes: the new total, and the weight that the vote replaces.
unfoldable pub weigh : ℕ → List GaugeVote → ℤ → Option ℤ → ℤ × Option ℤ
weigh gauge_id [] total previous = (total, previous)
weigh gauge_id (v ∷ vs) total previous = elim v.weight [
  | none ↦ weigh gauge_id vs total previous
  | some w ↦
      if v.gauge_id == gauge_id
      then weigh gauge_id vs total (some w)
      else weigh gauge_id vs (total +ℤ w) previous
]

amount_or_zero : Option ℤ → ℤ
amount_or_zero none = pos 0
amount_or_zero (some a) = a

less_previous : Option ℤ → ℤ → ℤ
less_previous none total = total
less_previous (some w) total = total -ℤ w

-- The gauge's new total, which is not let fall below zero.
unfoldable pub revoted : Option ℤ → Option ℤ → ℕ → ℤ
unfolding amount_or_zero less_previous
revoted total_voted previous weight =
    let total = less_previous previous (amount_or_zero total_voted) +ℤ pos weight in
    if ltb_ℤ total (pos 0) then pos 0 else total

abbrev pub with_total : ℕ → ℤ → Gauge → Gauge
with_total id total g = record g { total_voted = if g.id == id then some total else g.total_voted }

unfoldable pub set_total : ℕ → ℤ → List Gauge → List Gauge
set_total id total gs = map (with_total id total) gs

-- WHERE user_id = ? AND gauge_id = ?
unfoldable pub is_vote : String → ℕ → GaugeVote → Bool
is_vote user gauge_id v = str_eq v.user_id user && v.gauge_id == gauge_id

unfoldable pub find_vote : String → ℕ → List GaugeVote → Option GaugeVote
unfolding is_vote
find_vote user gauge_id [] = none
find_vote user gauge_id (v ∷ vs) =
    if is_vote user gauge_id v then some v else find_vote user gauge_id vs

unfoldable pub save_vote : GaugeVote → List GaugeVote → List GaugeVote
save_vote vote [] = []
save_vote vote (v ∷ vs) = (if v.id == vote.id then vote else v) ∷ save_vote vote vs

abbrev pub add_vote : String → ℕ → ℕ → Tables → Tables
add_vote user gauge_id weight t = record t {
  votes =
      record { id = t.next_id; user_id = user; gauge_id = gauge_id; weight = some (pos weight) }
      ∷ t.votes;
  next_id = t.next_id + 1;
}

-- The end of the in_transaction, on the user's vote as it is there.
unfoldable pub put_vote : Env → String → ℕ → ℕ → Option GaugeVote → Action (Unit {0})
unfolding save_vote
put_vote env user gauge_id weight none = write env database (add_vote user gauge_id weight)
put_vote env user gauge_id weight (some v) =
    write env database
      (λ t. record t { votes = save_vote (record v { weight = some (pos weight) }) t.votes })

-- The body of Vote's in_transaction.
unfoldable pub record_vote : Env → String → ℕ → ℕ → Option ℤ → Action (Unit {0})
unfolding find_gauge revoted set_total find_vote put_vote
record_vote env user gauge_id weight previous = do
  found ← query env database (λ t. find_gauge gauge_id t.gauges)
  current ← require_some found database
  let total = revoted current.total_voted previous weight
  write env database (λ t. record t { gauges = set_total gauge_id total t.gauges })
  existing ← query env database (λ t. find_vote user gauge_id t.votes)
  put_vote env user gauge_id weight existing

pub record VoteBody : Type 0 where
  pub gauge_id : Option ℕ
  pub weight : Text

pub record VoteReply : Type 0 where
  pub gauge_id : ℕ
  pub weight : ℕ
  pub epoch : ℕ
  pub voting_power : ℤ

unfoldable pub vote : Env → Option String → Option VoteBody → Action VoteReply
unfolding parse_amount_or_zero find_active total_voting_power votes_of weigh record_vote
vote env user body = do
  user ← require_some user unauthorized
  req ← require_some body bad_body
  gauge_id ← require_some req.gauge_id bad_id
  weight ← require_amount (parse_amount_or_zero req.weight)
  active ← query env gauge_not_found (λ t. find_active gauge_id t.gauges)
  gauge ← require_some active gauge_not_found
  at ← time_now env
  power ← total_voting_power env user at
  votes ← query env database (λ t. votes_of user t.votes)
  let weighed = weigh gauge_id votes (pos weight) none
  require (not (ltb_ℤ power weighed.0)) over_power
  in_transaction env database (record_vote env user gauge_id weight weighed.1)
  pure (record {
    gauge_id = gauge_id;
    weight = weight;
    epoch = current_epoch at;
    voting_power = power;
  })

pub record WeightBody : Type 0 where
  pub weight : Text
  pub active : Option Bool

active_or : Option Bool → Bool → Bool
active_or none old = old
active_or (some b) old = b

unfoldable pub set_weight : ℕ → ℕ → Option Bool → List Gauge → List Gauge
unfolding active_or
set_weight id weight active [] = []
set_weight id weight active (g ∷ gs) =
    (if g.id == id
      then record g { weight = some (pos weight); active = active_or active g.active }
      else g)
    ∷ set_weight id weight active gs

-- An update that matches no row is answered by 404.
unfoldable pub set_gauge_weight : Env → Option ℕ → Option WeightBody → Action (Unit {0})
unfolding parse_amount_or_zero set_weight find_gauge
set_gauge_weight env gauge_id body = do
  id ← require_some gauge_id bad_id
  req ← require_some body bad_body
  weight ← require_amount (parse_amount_or_zero req.weight)
  before ← peek (λ t. find_gauge id t.gauges)
  write env database (λ t. record t { gauges = set_weight id weight req.active t.gauges })
  require_some before gauge_not_found
  pure tt
