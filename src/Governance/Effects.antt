-- ===== src/Governance/Effects.antt =====
-- What the governance handlers are meant to do to the tables, a record for each kind of request that is
-- granted: who asked and for what, the conditions that held, the change of the tables and the answer.
-- The fields are of the request and of the tables as they were. `reading` counts a reading of the clock
-- that the request makes.
use tiger_swap.Prelude.{
  ℕ, ◌+◌, ◌≤◌, ◌<◌, ◌≡◌, ◌≢◌, ◌⊎◌, inr, Bool, true, false, List, [], ◌∷◌, Option, none, some,
  String,
}
use tiger_swap.Prelude.Int.{ℤ, pos, ◌≤ℤ◌}
use tiger_swap.Governance.Amounts.{Text, trim_space, parse_amount, parse_amount_or_zero}
use tiger_swap.Governance.Tables.{VeLock, Gauge, GaugeVote, Bribe, Tables, Site, Env}
use tiger_swap.Governance.Power.{min_lock_seconds, max_lock_seconds, sum_power, current_epoch}
use tiger_swap.Governance.Locks.{
  LockBody, LockReply, count_open, new_lock, add_lock, find_lock, save_lock,
}
use tiger_swap.Governance.Gauges.{
  GaugeBody, VoteBody, VoteReply, WeightBody, allowed_gauge_types, add_gauge, find_gauge,
  find_active, votes_of, weigh, revoted, set_total, find_vote, save_vote, add_vote, set_weight,
}
use tiger_swap.Governance.Bribes.{
  BribeBody, ClaimReply, allowed_settlement_assets, sum_weights, new_bribe, put_bribe, find_bribe,
  share_of, has_claim, put_claim,
}
use tiger_swap.Governance.Requests.{
  Request, opening, showing_locks, withdrawing, adding_gauge, showing_gauges, voting, weighting,
  funding, showing_bribes, claiming, boosting, Reply, opened, withdrew, gauge_added, weighted,
  shown, voted, funded, claimed,
}

-- One of the texts.
abbrev pub Among : Text → List Text → Type 0
Among t [] = ⊥
Among t (u ∷ us) = (t ≡ u) ⊎ Among t us

-- A user's vote of a weight for a gauge, in the place of the vote there.
unfoldable pub cast : String → ℕ → ℕ → Option GaugeVote → Tables → Tables
cast user gauge_id weight none t = add_vote user gauge_id weight t
cast user gauge_id weight (some v) t = record t {
  votes = save_vote (record v { weight = some (pos weight) }) t.votes;
}

-- A vote also changes the gauge's total, from what it was and what the vote replaces.
unfoldable pub recorded : String → ℕ → ℕ → Gauge → Option ℤ → Tables → Tables
unfolding cast
recorded user gauge_id weight g previous t =
    cast user gauge_id weight (find_vote user gauge_id t.votes)
      (record t { gauges = set_total gauge_id (revoted g.total_voted previous weight) t.gauges })

-- What the user's votes weigh with a new weight for the gauge, and the weight that it replaces.
abbrev pub weighed : String → ℕ → ℕ → Tables → ℤ × Option ℤ
weighed user gauge_id weight t = weigh gauge_id (votes_of user t.votes) (pos weight) none

-- A lock that is opened, at the second of two readings of the clock: no lock of the user's is open at the
-- first one.
pub record Opens (env : Env) (s t : Site) (user : Option String) (body : Option LockBody)
    (reply : LockReply) : Type 0 where
  pub owner : String
  pub is_owner : user ≡ some owner
  pub request : LockBody
  pub is_request : body ≡ some request
  pub amount : ℕ
  pub is_amount : parse_amount request.amount ≡ inr amount
  pub is_positive : 0 < amount
  pub duration : ℕ
  pub is_duration : request.duration_seconds ≡ pos duration
  pub is_long : min_lock_seconds ≤ duration
  pub is_short : duration ≤ max_lock_seconds
  pub checked : ℕ
  pub reading : ℕ
  pub is_later : s.calls ≤ checked
  pub in_order : checked ≤ reading
  pub in_time : reading < t.calls
  pub none_open : count_open owner (env.clock checked) s.tables.locks ≡ 0
  pub is_reply : reply ≡ record {
    lock = new_lock s.tables.next_id owner amount (env.clock reading) duration;
    voting_power = pos amount;
  }
  pub is_added : t.tables ≡ add_lock owner amount (env.clock reading) duration s.tables

-- A lock that is paid out: the user's own, not paid out before, and expired.
pub record Withdraws (env : Env) (s t : Site) (user : Option String) (id : Option ℕ)
    (paid : Option ℤ) : Type 0 where
  pub owner : String
  pub is_owner : user ≡ some owner
  pub key : ℕ
  pub is_key : id ≡ some key
  pub lock : VeLock
  pub is_lock : find_lock key owner s.tables.locks ≡ some lock
  pub has_key : lock.id ≡ key
  pub has_owner : lock.user_id ≡ owner
  pub is_held : lock.withdrawn ≡ false
  pub reading : ℕ
  pub is_later : s.calls ≤ reading
  pub in_time : reading < t.calls
  pub is_expired : lock.unlock_time ≤ env.clock reading
  pub is_paid : paid ≡ lock.amount
  pub is_saved :
      t.tables
      ≡ record s.tables { locks = save_lock (record lock { withdrawn = true }) s.tables.locks }

-- A gauge that is added has a name and one of the kinds.
pub record AddsGauge (env : Env) (s t : Site) (body : Option GaugeBody) : Type 0 where
  pub request : GaugeBody
  pub is_request : body ≡ some request
  pub is_named : trim_space request.name ≢ []
  pub is_kind : Among (env.lower (trim_space request.gauge_type)) allowed_gauge_types
  pub is_added :
      t.tables
      ≡ add_gauge
          (trim_space request.name)
          (env.lower (trim_space request.gauge_type))
          (trim_space request.reference)
          s.tables

-- A vote that is granted to a user: the gauge is active, and with the new weight the user's votes fit
-- the voting power at the time of the second call, which counts as none if it cannot be read.
pub record Votes (env : Env) (s t : Site) (user : String) (body : Option VoteBody)
    (reply : VoteReply) : Type 0 where
  pub request : VoteBody
  pub is_request : body ≡ some request
  pub is_gauge : request.gauge_id ≡ some reply.gauge_id
  pub is_weight : parse_amount_or_zero request.weight ≡ inr reply.weight
  pub reading : ℕ
  pub is_later : s.calls ≤ reading
  pub is_second : reading ≡ s.calls + 1
  pub is_epoch : reply.epoch ≡ current_epoch (env.clock reading)
  pub is_power :
      (reply.voting_power ≡ pos 0)
      ⊎ (sum_power env user (env.clock reading) s.tables.locks (pos 0) ≡ some reply.voting_power)
  pub active : Gauge
  pub is_active : find_active reply.gauge_id s.tables.gauges ≡ some active
  pub has_key : active.id ≡ reply.gauge_id
  pub is_live : active.active ≡ true
  pub gauge : Gauge
  pub is_there : find_gauge reply.gauge_id s.tables.gauges ≡ some gauge
  pub fits : (weighed user reply.gauge_id reply.weight s.tables).0 ≤ℤ reply.voting_power
  pub is_recorded :
      t.tables
      ≡ recorded user reply.gauge_id reply.weight gauge
          (weighed user reply.gauge_id reply.weight s.tables).1
          s.tables

-- A weight that is set, of a gauge that is there.
pub record SetsWeight (s t : Site) (id : Option ℕ) (body : Option WeightBody) : Type 0 where
  pub key : ℕ
  pub is_key : id ≡ some key
  pub request : WeightBody
  pub is_request : body ≡ some request
  pub weight : ℕ
  pub is_weight : parse_amount_or_zero request.weight ≡ inr weight
  pub gauge : Gauge
  pub is_there : find_gauge key s.tables.gauges ≡ some gauge
  pub is_set :
      t.tables ≡ record s.tables { gauges = set_weight key weight request.active s.tables.gauges }

-- A bribe that is funded: for a gauge that is active, in one of the assets, with the votes of the time.
pub record Funds (env : Env) (s t : Site) (user : Option String) (body : Option BribeBody)
    (bribe : Bribe) : Type 0 where
  pub funder : String
  pub is_funder : user ≡ some funder
  pub request : BribeBody
  pub is_request : body ≡ some request
  pub gauge_id : ℕ
  pub is_gauge : request.gauge_id ≡ some gauge_id
  pub amount : ℕ
  pub is_amount : parse_amount request.amount ≡ inr amount
  pub is_positive : 0 < amount
  pub is_asset : Among (env.upper (trim_space request.token)) allowed_settlement_assets
  pub active : Gauge
  pub is_active : find_active gauge_id s.tables.gauges ≡ some active
  pub has_key : active.id ≡ gauge_id
  pub is_live : active.active ≡ true
  pub reading : ℕ
  pub is_later : s.calls ≤ reading
  pub in_time : reading < t.calls
  pub is_reply :
      bribe
      ≡ new_bribe s.tables.next_id gauge_id
          (current_epoch (env.clock reading))
          (env.upper (trim_space request.token))
          amount
          (sum_weights gauge_id s.tables.votes (pos 0))
          funder
  pub is_put :
      t.tables
      ≡ put_bribe gauge_id
          (current_epoch (env.clock reading))
          (env.upper (trim_space request.token))
          amount
          (sum_weights gauge_id s.tables.votes (pos 0))
          funder
          s.tables

-- A claim that is granted to a user: the first of the bribe, for the user's share by the vote there,
-- which is not 0.
pub record Claimed (env : Env) (s t : Site) (user : String) (id : ℕ) (reply : ClaimReply)
    : Type 0 where
  pub bribe : Bribe
  pub is_bribe : find_bribe id s.tables.bribes ≡ some bribe
  pub has_key : bribe.id ≡ id
  pub is_token : reply.token ≡ bribe.token
  pub ballot : GaugeVote
  pub is_ballot : find_vote user bribe.gauge_id s.tables.votes ≡ some ballot
  pub has_owner : ballot.user_id ≡ user
  pub has_gauge : ballot.gauge_id ≡ bribe.gauge_id
  pub is_share : share_of bribe.total_weight ballot.weight bribe.amount ≡ some reply.amount
  pub is_some : reply.amount ≢ pos 0
  pub is_first : has_claim bribe.id user s.tables.claims ≡ false
  pub is_put : t.tables ≡ put_claim bribe.id user reply.amount s.tables

-- The requests that only report.
abbrev pub is_report : Request → Bool
is_report (showing_locks user) = true
is_report (showing_gauges only) = true
is_report (showing_bribes id) = true
is_report (boosting user staked) = true
is_report _ = false

-- What an answer to a request means.
pub data Effect (env : Env) (s t : Site) : Request → Reply → Type 0 where
  nothing : (q : Request) → is_report q ≡ true → t.tables ≡ s.tables → Effect env s t q shown
  opens :
      (user : Option String) (body : Option LockBody) (reply : LockReply)
      → Opens env s t user body reply
      → Effect env s t (opening user body) (opened reply)
  withdraws :
      (user : Option String) (id : Option ℕ) (paid : Option ℤ)
      → Withdraws env s t user id paid
      → Effect env s t (withdrawing user id) (withdrew paid)
  adds_gauge :
      (body : Option GaugeBody)
      → AddsGauge env s t body
      → Effect env s t (adding_gauge body) gauge_added
  votes :
      (user : String) (body : Option VoteBody) (reply : VoteReply)
      → Votes env s t user body reply
      → Effect env s t (voting (some user) body) (voted reply)
  sets_weight :
      (id : Option ℕ) (body : Option WeightBody)
      → SetsWeight s t id body
      → Effect env s t (weighting id body) weighted
  funds :
      (user : Option String) (body : Option BribeBody) (bribe : Bribe)
      → Funds env s t user body bribe
      → Effect env s t (funding user body) (funded bribe)
  claims :
      (user : String) (id : ℕ) (reply : ClaimReply)
      → Claimed env s t user id reply
      → Effect env s t (claiming (some user) (some id)) (claimed reply)
