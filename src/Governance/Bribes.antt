-- ===== src/Governance/Bribes.antt =====
-- The handlers of bribes of backend/services/governance_service.go: AddBribe, GetBribes and ClaimBribe.
-- The index on (bribe_id, user_id) is unique: a row that has both of another is not created.
use text.Mathlib.Text.{◌==◌ as str_eq}
use tiger_swap.Prelude.{
  ℕ, zero, ◌+◌, Bool, false, not, ◌&&◌, ◌||◌, List, [], ◌∷◌, Option, none, some, ltb, ◌==◌,
  if◌then◌else◌, String,
}
use tiger_swap.Prelude.Int.{ℤ, pos, negsuc, ◌+ℤ◌, ◌-ℤ◌, ◌*ℤ◌}
use tiger_swap.Governance.Amounts.{Text, trim_space, parse_amount, codes}
use tiger_swap.Governance.Tables.{
  GaugeVote, Bribe, BribeClaim, Tables, Env, unauthorized, bad_body, bad_id, gauge_not_found,
  bad_token, bribe_not_found, no_vote, no_weight, zero_share, already_claimed, database, refused,
  Action, called, pure, require, require_some, require_amount, peek, query, write, time_now, ◌>>=◌,
  ◌>>◌,
}
use tiger_swap.Governance.Power.{current_epoch, div_floor}
use tiger_swap.Governance.Gauges.{one_of, find_active, find_vote}

abbrev pub allowed_settlement_assets : List Text
allowed_settlement_assets =
    codes "RUSD"
    ∷ codes "USDT"
    ∷ codes "USDC"
    ∷ codes "RYUSD"
    ∷ codes "BTC"
    ∷ codes "ETH"
    ∷ codes "TGR"
    ∷ codes "USD"
    ∷ []

-- The sum of the weights that read as integers.
unfoldable pub sum_weights : ℕ → List GaugeVote → ℤ → ℤ
sum_weights gauge_id [] total = total
sum_weights gauge_id (v ∷ vs) total = elim v.weight [
  | none ↦ sum_weights gauge_id vs total
  | some w ↦ sum_weights gauge_id vs (if v.gauge_id == gauge_id then total +ℤ w else total)
]

pub record BribeBody : Type 0 where
  pub gauge_id : Option ℕ
  pub token : Text
  pub amount : Text

abbrev pub new_bribe : ℕ → ℕ → ℕ → Text → ℕ → ℤ → String → Bribe
new_bribe id gauge_id epoch token amount total_weight funder = record {
  id = id;
  gauge_id = gauge_id;
  epoch = epoch;
  token = token;
  amount = some (pos amount);
  total_weight = some total_weight;
  funder_id = funder;
}

abbrev pub put_bribe : ℕ → ℕ → Text → ℕ → ℤ → String → Tables → Tables
put_bribe gauge_id epoch token amount total_weight funder t = record t {
  bribes = new_bribe t.next_id gauge_id epoch token amount total_weight funder ∷ t.bribes;
  next_id = t.next_id + 1;
}

unfoldable pub add_bribe : Env → Option String → Option BribeBody → Action Bribe
unfolding parse_amount trim_space one_of find_active sum_weights
add_bribe env user body = do
  user ← require_some user unauthorized
  req ← require_some body bad_body
  gauge_id ← require_some req.gauge_id bad_id
  amount ← require_amount (parse_amount req.amount)
  let token = env.upper (trim_space req.token)
  require (one_of token allowed_settlement_assets) bad_token
  active ← query env gauge_not_found (λ t. find_active gauge_id t.gauges)
  gauge ← require_some active gauge_not_found
  at ← time_now env
  total_weight ← query env database (λ t. sum_weights gauge_id t.votes (pos 0))
  id ← peek (λ t. t.next_id)
  write env database (put_bribe gauge_id (current_epoch at) token amount total_weight user)
  pure (new_bribe id gauge_id (current_epoch at) token amount total_weight user)

-- Insertion before the first row of an earlier epoch; rows of one epoch keep their order.
insert_by_epoch : Bribe → List Bribe → List Bribe
insert_by_epoch b [] = b ∷ []
insert_by_epoch b (c ∷ cs) = if ltb b.epoch c.epoch then c ∷ insert_by_epoch b cs else b ∷ c ∷ cs

-- WHERE gauge_id = ? ORDER BY epoch DESC, created_at DESC
unfoldable pub bribes_of : ℕ → List Bribe → List Bribe
unfolding insert_by_epoch
bribes_of gauge_id [] = []
bribes_of gauge_id (b ∷ bs) =
    let rest = bribes_of gauge_id bs in
    if b.gauge_id == gauge_id then insert_by_epoch b rest else rest

unfoldable pub get_bribes : Env → Option ℕ → Action (List Bribe)
unfolding bribes_of
get_bribes env gauge_id = do
  id ← require_some gauge_id bad_id
  query env database (λ t. bribes_of id t.bribes)

unfoldable pub find_bribe : ℕ → List Bribe → Option Bribe
find_bribe id [] = none
find_bribe id (b ∷ bs) = if b.id == id then some b else find_bribe id bs

-- big.Int's Div by a divisor that is not 0: the remainder is not negative.
div_euclid : ℤ → ℤ → ℤ
unfolding div_floor
div_euclid a (pos d) = div_floor a d
div_euclid a (negsuc d) = pos 0 -ℤ div_floor a (d + 1)

-- amount * user weight / total weight, `none` where one cannot be read or the total is 0.
unfoldable pub share_of : Option ℤ → Option ℤ → Option ℤ → Option ℤ
unfolding div_euclid
share_of (some (pos zero)) weight amount = none
share_of (some total) (some weight) (some amount) = some (div_euclid (amount *ℤ weight) total)
share_of _ _ _ = none

unfoldable pub is_zero_share : ℤ → Bool
is_zero_share (pos n) = n == 0
is_zero_share (negsuc n) = false

unfoldable pub is_claim : ℕ → String → BribeClaim → Bool
is_claim bribe_id user c = c.bribe_id == bribe_id && str_eq c.user_id user

unfoldable pub has_claim : ℕ → String → List BribeClaim → Bool
unfolding is_claim
has_claim bribe_id user [] = false
has_claim bribe_id user (c ∷ cs) = is_claim bribe_id user c || has_claim bribe_id user cs

abbrev pub put_claim : ℕ → String → ℤ → Tables → Tables
put_claim bribe_id user share t = record t {
  claims =
      record { id = t.next_id; bribe_id = bribe_id; user_id = user; amount = some share }
      ∷ t.claims;
  next_id = t.next_id + 1;
}

-- Any failure to create the row is answered as a second claim.
unfoldable pub create_claim : Env → ℕ → String → ℤ → Action (Unit {0})
unfolding has_claim
create_claim env bribe_id user share s =
    if has_claim bribe_id user s.tables.claims
    then (refused already_claimed, called s)
    else write env already_claimed (put_claim bribe_id user share) s

pub record ClaimReply : Type 0 where
  pub token : Text
  pub amount : ℤ

unfoldable pub claim_bribe : Env → Option String → Option ℕ → Action ClaimReply
unfolding find_bribe find_vote share_of is_zero_share create_claim
claim_bribe env user bribe_id = do
  user ← require_some user unauthorized
  id ← require_some bribe_id bad_id
  found ← query env database (λ t. find_bribe id t.bribes)
  bribe ← require_some found bribe_not_found
  voted ← query env no_vote (λ t. find_vote user bribe.gauge_id t.votes)
  vote ← require_some voted no_vote
  share ← require_some (share_of bribe.total_weight vote.weight bribe.amount) no_weight
  require (not (is_zero_share share)) zero_share
  create_claim env bribe.id user share
  pure (record { token = bribe.token; amount = share })
