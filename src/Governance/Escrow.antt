-- ===== src/Governance/Escrow.antt =====
-- After any requests a user has one open lock at most, and every amount that was locked is held or paid.
use text.Mathlib.Text.{◌==◌ as str_eq}
use text.Mathlib.TextEquality.{eq_iff}
use tiger_swap.Prelude.{
  ℕ, ◌+◌, ◌≤◌, ◌≡◌, refl, List, [], ◌∷◌, Option, inl, inr, arith, String, Bool-cases, Option-cases,
  ap, sym, ◌∙◌, subst,
}
use tiger_swap.Prelude.Int.{ℤ}
use tiger_swap.Governance.Tables.{Gauge, VeLock, Tables, Site, Env, Result, ok, refused}
use tiger_swap.Governance.Locks.{LockReply, is_open, count_open, new_lock}
use tiger_swap.Governance.Gauges.{find_vote}
use tiger_swap.Governance.Ballots.{number}
use tiger_swap.Governance.Rules.{Post}
use tiger_swap.Governance.Requests.{Request, Reply, opened, withdrew, perform, serve}
use tiger_swap.Governance.Effects.{
  Effect, nothing, opens, withdraws, adds_gauge, votes, sets_weight, funds, claims, cast, recorded,
  weighed,
}
use tiger_swap.Governance.Decay.{IsEnv}
use tiger_swap.Governance.Refinement.{perform_refines}
use tiger_swap.Governance.Counting.{serve_keeps, new_site}
use tiger_swap.Governance.Holdings.{
  Keyed, held, held-save, save_lock-Keyed, count_open-save, count_open-antitone,
}

-- What a request paid in, and what it paid out.
unfoldable pub paid_in : Reply → ℕ
paid_in (opened r) = number r.lock.amount
paid_in _ = 0

unfoldable pub paid_out : Reply → ℕ
paid_out (withdrew a) = number a
paid_out _ = 0

unfoldable pub total_of : (Reply → ℕ) → List (Result Reply) → ℕ
total_of f [] = 0
total_of f (ok r ∷ rs) = f r + total_of f rs
total_of f (refused e ∷ rs) = total_of f rs

Keyed-widen : (n m : ℕ) (ls : List VeLock) → n ≤ m → Keyed n ls → Keyed m ls
Keyed-widen n m [] h k = tt
Keyed-widen n m (l ∷ ls) h k = (omega (arith, h, k.0), k.1)

recorded_keeps :
    (user : String) (id w : ℕ) (g : Gauge) (previous : Option ℤ) (t : Tables)
    → ((recorded user id w g previous t).locks ≡ t.locks)
      × (t.next_id ≤ (recorded user id w g previous t).next_id)
unfolding recorded cast
recorded_keeps user id w g previous t = elim (Option-cases (find_vote user id t.votes)) [
  | inl missing ↦ rw (missing, cast) (refl, omega arith)
  | inr (v, there) ↦ rw (there, cast) (refl, omega arith)
]

none_yet : (user : String) (t : ℕ) → count_open user t [] ≤ 1
unfolding count_open
none_yet user t = omega arith

module _ (env : Env) where
  record LocksOk (s : Site) : Type 0 where
    keyed : Keyed s.tables.next_id s.tables.locks
    single : (user : String) → count_open user (env.clock s.calls) s.tables.locks ≤ 1

  kept :
      IsEnv env
      → (s t : Site) → s.calls ≤ t.calls
      → t.tables.locks ≡ s.tables.locks
      → s.tables.next_id ≤ t.tables.next_id
      → LocksOk s
      → LocksOk t
  kept good s t h same n valid = record {
    keyed =
        subst (Keyed t.tables.next_id) (sym same) (Keyed-widen _ _ s.tables.locks n valid.keyed);
    single = λ user.
        subst (λ ls. count_open user (env.clock t.calls) ls ≤ 1) (sym same)
          (omega (
            arith,
            valid.single user,
            count_open-antitone user (env.clock s.calls) (env.clock t.calls) s.tables.locks
                (good.forward s.calls t.calls h),
          ));
  }

  opened_one :
      (user other : String) (id n at start d now : ℕ) (ls : List VeLock)
      → at ≤ now
      → count_open user at ls ≡ 0
      → count_open other now ls ≤ 1
      → count_open other now (new_lock id user n start d ∷ ls) ≤ 1
  unfolding count_open is_open
  opened_one user other id n at start d now ls h free one = elim (Bool-cases (str_eq user other)) [
    | inl mine ↦
        let who : user ≡ other = (eq_iff user other).0 mine in
        let none_open = count_open-antitone user at now ls h in
        let none_here : count_open other now ls ≤ 0 =
          subst (λ u. count_open u now ls ≤ 0) who (omega (arith, none_open, free)) in
        ground (arith, none_here)
    | inr not_mine ↦ ground arith
  ]

  Effect-LocksOk :
      IsEnv env
      → (s t : Site) (q : Request) (r : Reply) → s.calls ≤ t.calls
      → Effect env s t q r
      → LocksOk s
      → LocksOk t
  Effect-LocksOk good s t _ _ h (nothing q only e) valid =
      kept good s t h (ap (λ (x : Tables). x.locks) e)
        (omega (arith, ap (λ (x : Tables). x.next_id) e)) valid
  Effect-LocksOk good s t _ _ h (opens who body r o) valid = record {
    keyed =
        subst (λ (x : Tables). Keyed x.next_id x.locks) (sym o.is_added) (omega arith, valid.keyed);
    single = λ user.
        let older =
          count_open-antitone user (env.clock s.calls) (env.clock t.calls) s.tables.locks
            (good.forward s.calls t.calls h) in
        subst (λ (x : Tables). count_open user (env.clock t.calls) x.locks ≤ 1) (sym o.is_added)
          (opened_one o.owner user s.tables.next_id o.amount (env.clock o.checked)
            (env.clock o.reading) o.duration (env.clock t.calls) s.tables.locks
            (good.forward o.checked t.calls (omega (arith, o.in_order, o.in_time))) o.none_open
            (omega (arith, older, valid.single user)));
  }
  Effect-LocksOk good s t _ _ h (withdraws who id a w) valid = record {
    keyed =
        subst (λ (x : Tables). Keyed x.next_id x.locks) (sym w.is_saved)
          (save_lock-Keyed w.lock s.tables.next_id s.tables.locks valid.keyed);
    single = λ user.
        subst (λ (x : Tables). count_open user (env.clock t.calls) x.locks ≤ 1) (sym w.is_saved)
          (omega (
            arith,
            valid.single user,
            count_open-save w.lock user (env.clock t.calls) s.tables.locks,
            count_open-antitone user (env.clock s.calls) (env.clock t.calls) s.tables.locks
                (good.forward s.calls t.calls h),
          ));
  }
  Effect-LocksOk good s t _ _ h (adds_gauge body a) valid =
      kept good s t h (ap (λ (x : Tables). x.locks) a.is_added)
        (omega (arith, ap (λ (x : Tables). x.next_id) a.is_added)) valid
  Effect-LocksOk good s t _ _ h (votes u body r v) valid =
      let same =
        recorded_keeps u r.gauge_id r.weight v.gauge (weighed u r.gauge_id r.weight s.tables).1
          s.tables in
      kept good s t h (ap (λ (x : Tables). x.locks) v.is_recorded ∙ same.0)
        (omega (arith, ap (λ (x : Tables). x.next_id) v.is_recorded, same.1)) valid
  Effect-LocksOk good s t _ _ h (sets_weight id body w) valid =
      kept good s t h (ap (λ (x : Tables). x.locks) w.is_set)
        (omega (arith, ap (λ (x : Tables). x.next_id) w.is_set)) valid
  Effect-LocksOk good s t _ _ h (funds who body b f) valid =
      kept good s t h (ap (λ (x : Tables). x.locks) f.is_put)
        (omega (arith, ap (λ (x : Tables). x.next_id) f.is_put)) valid
  Effect-LocksOk good s t _ _ h (claims u id r k) valid =
      kept good s t h (ap (λ (x : Tables). x.locks) k.is_put)
        (omega (arith, ap (λ (x : Tables). x.next_id) k.is_put)) valid

  -- Whatever is asked of a new service, no user has more than one lock that is open at any later time.
  pub one_open_lock :
      IsEnv env
      → (qs : List Request) (user : String) (now : ℕ)
      → env.clock (serve env qs new_site).1.calls ≤ now
      → count_open user now (serve env qs new_site).1.tables.locks ≤ 1
  one_open_lock good qs user now h =
      let after = (serve env qs new_site).1 in
      let valid =
        serve_keeps env good LocksOk
          (λ s t later same.
            kept good s t later (ap (λ (x : Tables). x.locks) same)
              (omega (arith, ap (λ (x : Tables). x.next_id) same)))
          (λ s t q r later e. Effect-LocksOk good s t q r later e) qs new_site
          (record { keyed = tt; single = λ u. none_yet u (env.clock 0) }) in
      omega (
        arith,
        valid.single user,
        count_open-antitone user (env.clock after.calls) now after.tables.locks h,
      )

  Effect-balanced :
      (s t : Site) (q : Request) (r : Reply)
      → Effect env s t q r
      → LocksOk s
      → paid_out r + held t.tables.locks ≡ paid_in r + held s.tables.locks
  unfolding paid_in paid_out held
  Effect-balanced s t _ _ (nothing q only e) valid =
      omega (arith, ap (λ (x : Tables). held x.locks) e)
  Effect-balanced s t _ _ (opens who body r o) valid = omega (
    arith,
    ap (λ (x : Tables). held x.locks) o.is_added,
    ap (λ (x : LockReply). paid_in (opened x)) o.is_reply,
  )
  Effect-balanced s t _ _ (withdraws who id a w) valid = omega (
    arith,
    ap (λ (x : Tables). held x.locks) w.is_saved,
    ap (λ (o : Option ℤ). paid_out (withdrew o)) w.is_paid,
    held-save w.key w.owner w.lock s.tables.next_id s.tables.locks valid.keyed w.is_held w.is_lock,
  )
  Effect-balanced s t _ _ (adds_gauge body a) valid =
      omega (arith, ap (λ (x : Tables). held x.locks) a.is_added)
  Effect-balanced s t _ _ (votes u body r v) valid = omega (
    arith,
    ap (λ (x : Tables). held x.locks) v.is_recorded,
    ap held
        (recorded_keeps u r.gauge_id r.weight v.gauge (weighed u r.gauge_id r.weight s.tables).1
          s.tables).0,
  )
  Effect-balanced s t _ _ (sets_weight id body w) valid =
      omega (arith, ap (λ (x : Tables). held x.locks) w.is_set)
  Effect-balanced s t _ _ (funds who body b f) valid =
      omega (arith, ap (λ (x : Tables). held x.locks) f.is_put)
  Effect-balanced s t _ _ (claims u id r k) valid =
      omega (arith, ap (λ (x : Tables). held x.locks) k.is_put)

  -- A request, and then the others.
  balanced_after :
      IsEnv env
      → (q : Request) (qs : List Request) (s : Site) → LocksOk s
      → ((u : Site)
          → LocksOk u
          → total_of paid_out (serve env qs u).0 + held (serve env qs u).1.tables.locks
            ≡ total_of paid_in (serve env qs u).0 + held u.tables.locks)
      → total_of paid_out (serve env (q ∷ qs) s).0 + held (serve env (q ∷ qs) s).1.tables.locks
        ≡ total_of paid_in (serve env (q ∷ qs) s).0 + held s.tables.locks
  unfolding serve total_of
  balanced_after good q qs s valid rest = answered (perform env q s) (perform_refines env good q s)
    where
      answered :
          (x : Result Reply × Site)
          → Post s (λ r t. Effect env s t q r) x
          → total_of paid_out (x.0 ∷ (serve env qs x.1).0) + held (serve env qs x.1).1.tables.locks
            ≡ total_of paid_in (x.0 ∷ (serve env qs x.1).0) + held s.tables.locks
      answered (ok r, t) p = omega (
        arith,
        rest t (Effect-LocksOk good s t q r p.0 p.1 valid),
        Effect-balanced s t q r p.1 valid,
      )
      answered (refused e, t) p =
          let same = ap (λ (x : Tables). x.locks) p.1 in
          omega (
            arith,
            rest t
                (kept good s t p.0 same (omega (arith, ap (λ (x : Tables). x.next_id) p.1)) valid),
            ap held same,
          )

  serve-balanced :
      IsEnv env
      → (qs : List Request) (s : Site) → LocksOk s
      → total_of paid_out (serve env qs s).0 + held (serve env qs s).1.tables.locks
        ≡ total_of paid_in (serve env qs s).0 + held s.tables.locks
  unfolding serve total_of
  serve-balanced good [] s valid = refl
  serve-balanced good (q ∷ qs) s valid =
      balanced_after good q qs s valid (λ u v. serve-balanced good qs u v)

  -- Whatever is asked of a new service, what its answers paid out together with what the locks that
  -- are not withdrawn hold is what its answers took in.
  pub locks_balance :
      IsEnv env
      → (qs : List Request)
      → total_of paid_out (serve env qs new_site).0 + held (serve env qs new_site).1.tables.locks
        ≡ total_of paid_in (serve env qs new_site).0
  unfolding held
  locks_balance good qs = omega (
    arith,
    serve-balanced good qs new_site (record { keyed = tt; single = λ u. none_yet u (env.clock 0) }),
  )
