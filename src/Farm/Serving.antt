-- ===== src/Farm/Serving.antt =====
-- Requests to Stake and Unstake of backend/services/farm_service.go in turn: the total of a farm stays the
-- sum of its stakes, whatever the requests and whichever calls of the database fail.
use tiger_swap.Prelude.{
  ℕ, Bool, true, false, not, List, [], ◌∷◌, Option, none, some, ◌⊎◌, inl, inr, ltb, ◌==◌,
  if◌then◌else◌, Bool-cases, String,
}
use tiger_swap.Governance.Amounts.{Text, AmountError, parse_amount_or_zero}
use tiger_swap.Farm.Accrual.{FarmPool}
use tiger_swap.Farm.Staking.{
  FarmSite, StakeEnv, StakeRefusal, StakeAction, called, ◌>>=◌, require, given, bad_amount,
  bad_farm_id, bad_body, unauthorized, not_active, not_started, ended, farm_not_found, finished,
  parsed, select, find_farm, locked_farm, put_stake, take_stake, in_transaction, load_farm, stake,
  unstake,
}
use tiger_swap.Farm.Stakes.{IsStaked}
use tiger_swap.Farm.Steps.{Sound, After}
use tiger_swap.Farm.Staked.{AllSound, put_stake-After, take_stake-After}

-- A request with its farm id, body and user, at a time.
pub data StakeRequest : Type 0 where
  ask_stake : Option ℕ → Option Text → Option String → ℕ → StakeRequest
  ask_unstake : Option ℕ → Option Text → Option String → ℕ → StakeRequest

unfoldable pub answer : StakeEnv → StakeRequest → StakeAction (Unit {0})
unfolding stake unstake
answer env (ask_stake id body user now) = stake env id body user now
answer env (ask_unstake id body user now) = unstake env id body user now

unfoldable pub serve : StakeEnv → List StakeRequest → FarmSite → FarmSite
unfolding answer
serve env [] s = s
serve env (r ∷ rs) s = serve env rs (answer env r s).1

-- An action that leaves the totals right, answered or not.
Kept : {B : Type 0} → (StakeRefusal ⊎ B) × FarmSite → Type 0
Kept (r, t) = Sound t

>>=-Kept :
    {A B : Type 0} (m : StakeAction A) (k : A → StakeAction B) (s : FarmSite)
    → Kept (m s)
    → ((a : A) (t : FarmSite) → Sound t → Kept (k a t))
    → Kept ((m >>= k) s)
unfolding ◌>>=◌ Kept
>>=-Kept {A} {B} m k s h p = continued (m s) h
  where
    continued :
        (x : (StakeRefusal ⊎ A) × FarmSite)
        → Kept x
        → Kept {B = B} (let (r, t) = x in elim r [ inl e ↦ (inl e, t) | inr a ↦ k a t ])
    continued (inl e, t) h = h
    continued (inr a, t) h = p a t h

given-Kept :
    {A : Type 0} (o : Option A) (e : StakeRefusal) (s : FarmSite) → Sound s → Kept (given o e s)
unfolding Kept
given-Kept none e s h = h
given-Kept (some a) e s h = h

require-Kept : (b : Bool) (e : StakeRefusal) (s : FarmSite) → Sound s → Kept (require b e s)
unfolding Kept
require-Kept true e s h = h
require-Kept false e s h = h

parsed-Kept : (raw : Text) (s : FarmSite) → Sound s → Kept (parsed raw s)
unfolding parsed Kept
parsed-Kept raw s h = read (parse_amount_or_zero raw)
  where
    read :
        (x : AmountError ⊎ ℕ)
        → Sound
            (elim x as (λ _. (StakeRefusal ⊎ ℕ) × FarmSite) [
              | inl e ↦ (inl bad_amount, s)
              | inr n ↦ if n == 0 then (inl bad_amount, s) else (inr n, s)
            ]).1
    read (inl e) = h
    read (inr n) = elim (Bool-cases (n == 0)) [
      | inl zero_amount ↦ rw zero_amount h
      | inr positive_amount ↦ rw positive_amount h
    ]

select-Kept :
    {A : Type 0} (env : StakeEnv) (f : FarmSite → A) (s : FarmSite)
    → Sound s
    → Kept (select env f s)
unfolding select Kept
select-Kept env f s h = h

load_farm-Kept : (env : StakeEnv) (id : ℕ) (s : FarmSite) → Sound s → Kept (load_farm env id s)
unfolding load_farm locked_farm
load_farm-Kept env id s h =
    let find : FarmSite → Option FarmPool = λ t. find_farm id t.farms in
    >>=-Kept (select env find) (λ o. given o farm_not_found) s (select-Kept env find s h)
      (λ o t k. given-Kept o farm_not_found t k)

finished-Kept :
    (env : StakeEnv) (s : FarmSite) (x : (StakeRefusal ⊎ Unit {0}) × FarmSite)
    → Sound s
    → After AllSound x
    → Kept (finished env s x)
unfolding finished After AllSound Kept
finished-Kept env s (inl e, t) h k = h
finished-Kept env s (inr u, t) h k = elim (Bool-cases (env.faults t.calls)) [
  | inl failed ↦ rw failed h
  | inr done ↦ rw done k
]

in_transaction-Kept :
    (env : StakeEnv) (body : StakeAction (Unit {0})) (s : FarmSite)
    → Sound s
    → After AllSound (body (called s))
    → Kept (in_transaction env body s)
unfolding in_transaction Kept
in_transaction-Kept env body s h k = elim (Bool-cases (env.faults s.calls)) [
  | inl failed ↦ rw failed h
  | inr done ↦ rw done (finished-Kept env s (body (called s)) h k)
]

-- The guards before the transaction.
stake-Kept :
    (env : StakeEnv) (id : Option ℕ) (body : Option Text) (user : Option String) (now : ℕ)
    (s : FarmSite)
    → Sound s
    → Kept (stake env id body user now s)
unfolding stake
stake-Kept env id body user now s h =
    >>=-Kept (given id bad_farm_id) _ s (given-Kept id bad_farm_id s h) (λ farm_id s h.
      >>=-Kept (given body bad_body) _ s (given-Kept body bad_body s h) (λ raw s h.
        >>=-Kept (given user unauthorized) _ s (given-Kept user unauthorized s h) (λ caller s h.
          >>=-Kept (parsed raw) _ s (parsed-Kept raw s h) (λ amount s h.
            >>=-Kept (load_farm env farm_id) _ s (load_farm-Kept env farm_id s h) (λ farm s h.
              >>=-Kept (require farm.active not_active) _ s
                (require-Kept farm.active not_active s h)
                (λ _ s h.
                  >>=-Kept (require (not (ltb now farm.start_time)) not_started) _ s
                    (require-Kept (not (ltb now farm.start_time)) not_started s h)
                    (λ _ s h.
                      >>=-Kept (require (ltb now farm.end_time) ended) _ s
                        (require-Kept (ltb now farm.end_time) ended s h)
                        (λ _ s h.
                          in_transaction-Kept env (put_stake env farm.id caller amount now) s h
                            (put_stake-After env farm.id caller amount now (called s) h)))))))))

unstake-Kept :
    (env : StakeEnv) (id : Option ℕ) (body : Option Text) (user : Option String) (now : ℕ)
    (s : FarmSite)
    → Sound s
    → Kept (unstake env id body user now s)
unfolding unstake
unstake-Kept env id body user now s h =
    >>=-Kept (given id bad_farm_id) _ s (given-Kept id bad_farm_id s h) (λ farm_id s h.
      >>=-Kept (given body bad_body) _ s (given-Kept body bad_body s h) (λ raw s h.
        >>=-Kept (given user unauthorized) _ s (given-Kept user unauthorized s h) (λ caller s h.
          >>=-Kept (parsed raw) _ s (parsed-Kept raw s h) (λ amount s h.
            >>=-Kept (load_farm env farm_id) _ s (load_farm-Kept env farm_id s h) (λ farm s h.
              in_transaction-Kept env (take_stake env farm.id caller amount now) s h
                (take_stake-After env farm.id caller amount now (called s) h))))))

answer-Kept : (env : StakeEnv) (r : StakeRequest) (s : FarmSite) → Sound s → Kept (answer env r s)
unfolding answer
answer-Kept env (ask_stake id body user now) s h = stake-Kept env id body user now s h
answer-Kept env (ask_unstake id body user now) s h = unstake-Kept env id body user now s h

answer-Sound : (x : (StakeRefusal ⊎ Unit {0}) × FarmSite) → Kept x → Sound x.1
unfolding Kept
answer-Sound (r, t) h = h

-- Where each farm's total is the sum of its stakes, and the stakes have falling ids, it is so after any
-- requests to Stake and Unstake, whichever calls of the database fail.
pub serve-IsStaked :
    (env : StakeEnv) (rs : List StakeRequest) (s : FarmSite)
    → IsStaked s.farms s.stakes s.next_stake
    → IsStaked (serve env rs s).farms (serve env rs s).stakes (serve env rs s).next_stake
unfolding serve
serve-IsStaked env [] s h = h
serve-IsStaked env (r ∷ rs) s h =
    serve-IsStaked env rs (answer env r s).1 (answer-Sound (answer env r s) (answer-Kept env r s h))
