-- ===== src/Governance/Rules.antt =====
-- Rules for what a handler of the governance service leaves behind: a refusal leaves the tables as they
-- were, and an answer what `Q` says.
use tiger_swap.Prelude.{
  ℕ, ◌+◌, ◌≤◌, ◌≡◌, refl, Bool, true, false, Option, none, some, ◌⊎◌, inl, inr, arith,
  if◌then◌else◌,
}
use tiger_swap.Governance.Amounts.{AmountError}
use tiger_swap.Governance.Tables.{
  Tables, Site, Env, Refusal, Result, ok, refused, Action, called, require, require_some,
  require_amount, peek, query, write, in_transaction, time_now, pure, ◌>>=◌,
}

module _ {A : Type 0} where
  abbrev pub Post : Site → (A → Site → Type 0) → Result A × Site → Type 0
  Post s Q (ok a, t) = (s.calls ≤ t.calls) × Q a t
  Post s Q (refused e, t) = (s.calls ≤ t.calls) × (t.tables ≡ s.tables)

-- Between the calls that change the tables the site differs from the first one in the count only.
abbrev pub Since : Site → Site → Type 0
Since s t = (s.calls ≤ t.calls) × (t.tables ≡ s.tables)

-- What the body of a in_transaction leaves behind if it does not fail.
abbrev pub Done : Site → (Site → Type 0) → Result (Unit {0}) × Site → Type 0
Done s R (ok tt, t) = (s.calls ≤ t.calls) × R t
Done s R (refused e, t) = s.calls ≤ t.calls

module _ (s : Site) (R : Site → Type 0) (t : Site) (later : s.calls ≤ t.calls) (env : Env) where
  pub write-Done :
      (e : Refusal) (f : Tables → Tables)
      → R (record { tables = f t.tables; calls = t.calls + 1 })
      → Done s R (write env e f t)
  unfolding write
  write-Done e f p = written (env.faults t.calls)
    where
      written :
          (b : Bool)
          → Done s R (
              if b
              then (refused e, called t)
              else (ok tt, record { tables = f t.tables; calls = t.calls + 1 }))
      written true = omega (arith, later)
      written false = (omega (arith, later), p)

  pub write-then_Done :
      (e : Refusal) (f : Tables → Tables) (k : Unit {0} → Action (Unit {0}))
      → Done s R (k tt (record { tables = f t.tables; calls = t.calls + 1 }))
      → Done s R ((write env e f >>= k) t)
  unfolding write ◌>>=◌
  write-then_Done e f k p = written (env.faults t.calls)
    where
      written :
          (b : Bool)
          → Done s R (
              ((λ u.
                    if b
                    then (refused e, called u)
                    else (ok tt, record { tables = f u.tables; calls = u.calls + 1 }))
                  >>= k)
                t)
      written true = omega (arith, later)
      written false = p

  module _ {B : Type 0} where
    pub query-Done :
        (e : Refusal) (f : Tables → B) (k : B → Action (Unit {0}))
        → Done s R (k (f t.tables) (called t))
        → Done s R ((query env e f >>= k) t)
    unfolding query ◌>>=◌
    query-Done e f k p = answered (env.faults t.calls)
      where
        answered :
            (b : Bool)
            → Done s R (((λ u. (if b then refused e else ok (f u.tables), called u)) >>= k) t)
        answered true = omega (arith, later)
        answered false = p

    pub require_some-Done :
        (o : Option B) (e : Refusal) (k : B → Action (Unit {0}))
        → ((b : B) → o ≡ some b → Done s R (k b t))
        → Done s R ((require_some o e >>= k) t)
    unfolding ◌>>=◌
    require_some-Done none e k p = later
    require_some-Done (some b) e k p = p b refl

module _ {A : Type 0} (s : Site) (Q : A → Site → Type 0) where
  pub require-Post :
      (t : Site) (b : Bool) (e : Refusal) (k : Unit {0} → Action A)
      → Since s t
      → (b ≡ true → Post s Q (k tt t))
      → Post s Q ((require b e >>= k) t)
  unfolding ◌>>=◌
  require-Post t true e k h p = p refl
  require-Post t false e k h p = h

  pub time_now-Post :
      (t : Site) (env : Env) (k : ℕ → Action A)
      → Post s Q (k (env.clock t.calls) (called t))
      → Post s Q ((time_now env >>= k) t)
  unfolding ◌>>=◌
  time_now-Post t env k p = p

  pub pure-Post : (t : Site) (a : A) → s.calls ≤ t.calls → Q a t → Post s Q (pure a t)
  pure-Post t a h p = (h, p)

  pub write-Post :
      (t : Site) (env : Env) (e : Refusal) (f : Tables → Tables) (k : Unit {0} → Action A)
      → Since s t
      → Post s Q (k tt (record { tables = f t.tables; calls = t.calls + 1 }))
      → Post s Q ((write env e f >>= k) t)
  unfolding write ◌>>=◌
  write-Post t env e f k h p = written (env.faults t.calls)
    where
      written :
          (b : Bool)
          → Post s Q (
              ((λ u.
                    if b
                    then (refused e, called u)
                    else (ok tt, record { tables = f u.tables; calls = u.calls + 1 }))
                  >>= k)
                t)
      written true = (omega (arith, h.0), h.1)
      written false = p

  -- A in_transaction: what its body ensures holds if it is committed, and else nothing has changed.
  pub in_transaction-Post :
      (R : Site → Type 0) (t : Site) (env : Env) (e : Refusal) (body : Action (Unit {0}))
      (k : Unit {0} → Action A)
      → Since s t
      → Done t R (body (called t))
      → ((u : Site) → s.calls ≤ u.calls → R u → Post s Q (k tt (called u)))
      → Post s Q ((in_transaction env e body >>= k) t)
  unfolding in_transaction ◌>>=◌
  in_transaction-Post R t env e body k h done next =
      begun (env.faults t.calls) (body (called t)) done
    where
      committed :
          (c : Bool) (u : Site)
          → (t.calls ≤ u.calls) × R u
          → Post s Q (
              ((λ _.
                    if c
                    then (refused e, called (record u { tables = t.tables }))
                    else (ok tt, called u))
                  >>= k)
                t)
      committed true u p = (omega (arith, h.0, p.0), h.1)
      committed false u p = next u (omega (arith, h.0, p.0)) p.1

      begun :
          (b : Bool) (r : Result (Unit {0}) × Site)
          → Done t R r
          → Post s Q (
              ((λ _. if b then (refused e, called t) else elim r.0 [
                | refused _ ↦ (refused e, record r.1 { tables = t.tables })
                | ok _ ↦
                    if env.faults r.1.calls
                    then (refused e, called (record r.1 { tables = t.tables }))
                    else (ok tt, called r.1)
              ])
                  >>= k)
                t)
      begun true r p = (omega (arith, h.0), h.1)
      begun false (refused _, u) p = (omega (arith, h.0, p), h.1)
      begun false (ok tt, u) p = committed (env.faults u.calls) u p

  module _ {B : Type 0} (t : Site) where
    pub require_some-Post :
        (o : Option B) (e : Refusal) (k : B → Action A)
        → Since s t
        → ((b : B) → o ≡ some b → Post s Q (k b t))
        → Post s Q ((require_some o e >>= k) t)
    unfolding ◌>>=◌
    require_some-Post none e k h p = h
    require_some-Post (some b) e k h p = p b refl

    pub granted-Post :
        (o : Option B) (b : B) (e : Refusal) (k : B → Action A)
        → o ≡ some b
        → Post s Q (k b t)
        → Post s Q ((require_some o e >>= k) t)
    unfolding ◌>>=◌
    granted-Post o b e k h p = rw h p

    pub require_amount-Post :
        (o : AmountError ⊎ B) (k : B → Action A)
        → Since s t
        → ((b : B) → o ≡ inr b → Post s Q (k b t))
        → Post s Q ((require_amount o >>= k) t)
    unfolding ◌>>=◌
    require_amount-Post (inl e) k h p = h
    require_amount-Post (inr b) k h p = p b refl

    pub peek-Post :
        (f : Tables → B) (k : B → Action A)
        → Post s Q (k (f t.tables) t)
        → Post s Q ((peek f >>= k) t)
    unfolding peek ◌>>=◌
    peek-Post f k p = p

    pub query-Post :
        (env : Env) (e : Refusal) (f : Tables → B) (k : B → Action A)
        → Since s t
        → Post s Q (k (f t.tables) (called t))
        → Post s Q ((query env e f >>= k) t)
    unfolding query ◌>>=◌
    query-Post env e f k h p = answered (env.faults t.calls)
      where
        answered :
            (b : Bool)
            → Post s Q (((λ u. (if b then refused e else ok (f u.tables), called u)) >>= k) t)
        answered true = (omega (arith, h.0), h.1)
        answered false = p

    -- What a step on the way ensures is handed on.
    pub bind-Post :
        (R : B → Site → Type 0) (m : Action B) (k : B → Action A)
        → Post s R (m t)
        → ((b : B) (u : Site) → s.calls ≤ u.calls → R b u → Post s Q (k b u))
        → Post s Q ((m >>= k) t)
    unfolding ◌>>=◌
    bind-Post R m k p next = bound (m t) p
      where
        bound : (r : Result B × Site) → Post s R r → Post s Q (((λ _. r) >>= k) t)
        bound (ok b, u) p = next b u p.0 p.1
        bound (refused e, u) p = p

pub write_end :
    (s : Site) (Q : Unit {0} → Site → Type 0) (t : Site) (env : Env) (e : Refusal)
    (f : Tables → Tables)
    → Since s t
    → Q tt (record { tables = f t.tables; calls = t.calls + 1 })
    → Post s Q (write env e f t)
unfolding write
write_end s Q t env e f h p = written (env.faults t.calls)
  where
    written :
        (b : Bool)
        → Post s Q (
            if b
            then (refused e, called t)
            else (ok tt, record { tables = f t.tables; calls = t.calls + 1 }))
    written true = (omega (arith, h.0), h.1)
    written false = (omega (arith, h.0), p)

pub query_end :
    {B : Type 0} (s : Site) (Q : B → Site → Type 0) (t : Site) (env : Env) (e : Refusal)
    (f : Tables → B)
    → Since s t
    → Q (f t.tables) (called t)
    → Post s Q (query env e f t)
unfolding query
query_end s Q t env e f h p = answered (env.faults t.calls)
  where
    answered : (b : Bool) → Post s Q (if b then refused e else ok (f t.tables), called t)
    answered true = (omega (arith, h.0), h.1)
    answered false = (omega (arith, h.0), p)
