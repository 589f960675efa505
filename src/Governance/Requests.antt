-- ===== src/Governance/Requests.antt =====
-- The requests that the governance handlers serve, in the sequence in which they arrive.
use tiger_swap.Prelude.{ℕ, Bool, List, [], ◌∷◌, Option, String}
use tiger_swap.Prelude.Int.{ℤ}
use tiger_swap.Governance.Amounts.{Text}
use tiger_swap.Governance.Tables.{Site, Bribe, Env, Result, Action, pure, ◌>>=◌, ◌>>◌}
use tiger_swap.Governance.Power.{get_boost}
use tiger_swap.Governance.Locks.{LockBody, LockReply, create_lock, get_locks, withdraw_lock}
use tiger_swap.Governance.Gauges.{
  GaugeBody, VoteBody, VoteReply, WeightBody, create_gauge, get_gauges, vote, set_gauge_weight,
}
use tiger_swap.Governance.Bribes.{BribeBody, ClaimReply, add_bribe, get_bribes, claim_bribe}

pub data Request : Type 0 where
  opening : Option String → Option LockBody → Request
  showing_locks : Option String → Request
  withdrawing : Option String → Option ℕ → Request
  adding_gauge : Option GaugeBody → Request
  showing_gauges : Bool → Request
  voting : Option String → Option VoteBody → Request
  weighting : Option ℕ → Option WeightBody → Request
  funding : Option String → Option BribeBody → Request
  showing_bribes : Option ℕ → Request
  claiming : Option String → Option ℕ → Request
  boosting : Option String → Text → Request

-- What an answer pays or records; `shown` is any answer that only reports.
pub data Reply : Type 0 where
  opened : LockReply → Reply
  withdrew : Option ℤ → Reply
  gauge_added weighted shown : Reply
  voted : VoteReply → Reply
  funded : Bribe → Reply
  claimed : ClaimReply → Reply

unfoldable pub perform : Env → Request → Action Reply
perform env (opening user body) = do r ← create_lock env user body; pure (opened r)
perform env (showing_locks user) = do get_locks env user; pure shown
perform env (withdrawing user id) = do a ← withdraw_lock env user id; pure (withdrew a)
perform env (adding_gauge body) = do create_gauge env body; pure gauge_added
perform env (showing_gauges only) = do get_gauges env only; pure shown
perform env (voting user body) = do r ← vote env user body; pure (voted r)
perform env (weighting id body) = do set_gauge_weight env id body; pure weighted
perform env (funding user body) = do b ← add_bribe env user body; pure (funded b)
perform env (showing_bribes id) = do get_bribes env id; pure shown
perform env (claiming user id) = do r ← claim_bribe env user id; pure (claimed r)
perform env (boosting user staked) = do get_boost env user staked; pure shown

unfoldable pub serve : Env → List Request → Site → List (Result Reply) × Site
unfolding perform
serve env [] s = ([], s)
serve env (q ∷ qs) s = let (r, t) = perform env q s in let (rs, u) = serve env qs t in (r ∷ rs, u)
