-- ===== src/Governance/Refinement.antt =====
-- Each request to the governance service is refused with nothing changed, or does what it is meant to.
use tiger_swap.Prelude.{ℕ, ◌≡◌, refl, Bool, true, Option, arith, String}
use tiger_swap.Governance.Amounts.{Text, parse_amount}
use tiger_swap.Governance.Tables.{
  Site, Env, unauthorized, bad_id, database, panicked, Action, called, pure, ◌>>=◌,
}
use tiger_swap.Governance.Power.{get_boost}
use tiger_swap.Governance.Locks.{get_locks, create_lock, withdraw_lock}
use tiger_swap.Governance.Gauges.{get_gauges, create_gauge, vote, set_gauge_weight}
use tiger_swap.Governance.Bribes.{get_bribes, add_bribe, claim_bribe}
use tiger_swap.Governance.Rules.{
  Post, require_some-Post, require_amount-Post, query-Post, time_now-Post, bind-Post, query_end,
}
use tiger_swap.Governance.Requests.{
  Request, opening, showing_locks, withdrawing, adding_gauge, showing_gauges, voting, weighting,
  funding, showing_bribes, claiming, boosting, Reply, opened, withdrew, gauge_added, weighted,
  shown, voted, funded, claimed, perform,
}
use tiger_swap.Governance.Effects.{
  Opens, Withdraws, AddsGauge, SetsWeight, Funds, is_report, Effect, nothing, opens, withdraws,
  adds_gauge, sets_weight, funds,
}
use tiger_swap.Governance.Decay.{IsEnv}
use tiger_swap.Governance.Opening.{create_lock-Opens, withdraw_lock-Withdraws}
use tiger_swap.Governance.Granting.{
  add_bribe-Funds, claim_bribe-Effect, create_gauge-Adds, set_gauge_weight-Sets,
}
use tiger_swap.Governance.Voting.{power-Post, vote-Effect}

-- A request that only reports.
module _ {A : Type 0} where
  abbrev Unchanged : Site → A → Site → Type 0
  Unchanged s _ t = t.tables ≡ s.tables

module _ (env : Env) (s : Site) where
  get_locks-Unchanged : (user : Option String) → Post s (Unchanged s) (get_locks env user s)
  unfolding get_locks
  get_locks-Unchanged user =
      require_some-Post s (Unchanged s) s user unauthorized _ (omega arith, refl)
        λ u _.
          query-Post s (Unchanged s) s env database _ _ (omega arith, refl)
            (time_now-Post s (Unchanged s) (called s) env _ (
              require_some-Post s (Unchanged s) _ _ panicked _ (omega arith, refl)
                λ _ _.
                  power-Post s (Unchanged s) (called (called s)) env u _ _ (omega arith, refl)
                    λ _ _. (omega arith, refl)))

  get_boost-Unchanged :
      (user : Option String) (raw : Text) → Post s (Unchanged s) (get_boost env user raw s)
  unfolding get_boost
  get_boost-Unchanged user raw =
      require_some-Post s (Unchanged s) s user unauthorized _ (omega arith, refl)
        λ u _.
          require_amount-Post s (Unchanged s) s (parse_amount raw) _ (omega arith, refl)
            λ n _. time_now-Post s (Unchanged s) s env _ (
              power-Post s (Unchanged s) (called s) env u _ _ (omega arith, refl)
                λ _ _. (omega arith, refl))

  get_gauges-Unchanged : (only : Bool) → Post s (Unchanged s) (get_gauges env only s)
  unfolding get_gauges
  get_gauges-Unchanged only = query_end s (Unchanged s) s env database _ (omega arith, refl) refl

  get_bribes-Unchanged : (id : Option ℕ) → Post s (Unchanged s) (get_bribes env id s)
  unfolding get_bribes
  get_bribes-Unchanged id =
      require_some-Post s (Unchanged s) s id bad_id _ (omega arith, refl)
        λ i _. query_end s (Unchanged s) s env database _ (omega arith, refl) refl

  -- The answer of a handler as the reply of its request.
  replied :
      {A : Type 0} (q : Request) (m : Action A) (f : A → Reply) (Q : A → Site → Type 0)
      → ((a : A) (t : Site) → Q a t → Effect env s t q (f a))
      → Post s Q (m s)
      → Post s (λ r t. Effect env s t q r) ((m >>= λ a. pure (f a)) s)
  replied q m f Q means p =
      bind-Post s (λ r t. Effect env s t q r) s Q m _ p λ a t later done. (later, means a t done)

  reported :
      {A : Type 0} (q : Request) (m : Action A)
      → is_report q ≡ true
      → Post s (Unchanged s) (m s)
      → Post s (λ r t. Effect env s t q r) ((m >>= λ _. pure shown) s)
  reported q m only p =
      bind-Post s (λ r t. Effect env s t q r) s (Unchanged s) m _ p
        λ a t later same. (later, nothing q only same)

-- Where the clock does not go back, and the seconds of a duration grow with it and are exact for whole
-- seconds: whatever the request, a refusal leaves the tables as they were, and an answer is one that the
-- effect of just this request allows. It is for the user, ids, amounts and names in the request, the
-- conditions on them held of the tables before, and the tables change as the request is meant to change
-- them.
pub perform_refines :
    (env : Env)
    → IsEnv env
    → (q : Request) (s : Site) → Post s (λ r t. Effect env s t q r) (perform env q s)
unfolding perform
perform_refines env good (opening user body) s =
    replied env s (opening user body) (create_lock env user body) opened
      (λ r t. Opens env s t user body r) (λ r t. opens user body r)
      (create_lock-Opens env good s user body)
perform_refines env good (showing_locks user) s =
    reported env s (showing_locks user) (get_locks env user) refl (get_locks-Unchanged env s user)
perform_refines env good (withdrawing user id) s =
    replied env s (withdrawing user id) (withdraw_lock env user id) withdrew
      (λ a t. Withdraws env s t user id a) (λ a t. withdraws user id a)
      (withdraw_lock-Withdraws env good s user id)
perform_refines env good (adding_gauge body) s =
    replied env s (adding_gauge body) (create_gauge env body) (λ _. gauge_added)
      (λ _ t. AddsGauge env s t body) (λ _ t. adds_gauge body) (create_gauge-Adds env s body)
perform_refines env good (showing_gauges only) s =
    reported env s (showing_gauges only) (get_gauges env only) refl
      (get_gauges-Unchanged env s only)
perform_refines env good (voting user body) s =
    replied env s (voting user body) (vote env user body) voted
      (λ r t. Effect env s t (voting user body) (voted r)) (λ r t done. done)
      (vote-Effect env s user body)
perform_refines env good (weighting id body) s =
    replied env s (weighting id body) (set_gauge_weight env id body) (λ _. weighted)
      (λ _ t. SetsWeight s t id body) (λ _ t. sets_weight id body)
      (set_gauge_weight-Sets env s id body)
perform_refines env good (funding user body) s =
    replied env s (funding user body) (add_bribe env user body) funded
      (λ b t. Funds env s t user body b) (λ b t. funds user body b)
      (add_bribe-Funds env s user body)
perform_refines env good (showing_bribes id) s =
    reported env s (showing_bribes id) (get_bribes env id) refl (get_bribes-Unchanged env s id)
perform_refines env good (claiming user id) s =
    replied env s (claiming user id) (claim_bribe env user id) claimed
      (λ r t. Effect env s t (claiming user id) (claimed r)) (λ r t done. done)
      (claim_bribe-Effect env s user id)
perform_refines env good (boosting user staked) s =
    reported env s (boosting user staked) (get_boost env user staked) refl
      (get_boost-Unchanged env s user staked)
