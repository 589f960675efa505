-- ===== src/Governance/Opening.antt =====
-- CreateLock and WithdrawLock do what they are meant to.
use tiger_swap.Prelude.{
  ℕ, ◌+◌, ◌≤◌, ◌<◌, ◌≡◌, refl, [], ◌∷◌, true, not, Option, none, some, inr, arith, String,
}
use tiger_swap.Prelude.Int.{ℤ, pos, negsuc, pos_part, ltb_ℤ}
use tiger_swap.Governance.Amounts.{
  Text, parse_amount, parse_trimmed, checked_amount, set_string, trim_space,
}
use tiger_swap.Governance.Tables.{
  Site, Env, unauthorized, bad_body, database, called, pure, require_some, ◌>>=◌, panicked,
  lock_too_long, lock_too_short, lock_exists, bad_id, lock_not_found, already_withdrawn,
  not_expired,
}
use tiger_swap.Governance.Power.{min_lock_seconds, max_lock_seconds, voting_power}
use tiger_swap.Governance.Locks.{
  LockBody, LockReply, count_open, new_lock, add_lock, create_lock, withdraw_lock,
}
use tiger_swap.Governance.Rules.{
  Post, require-Post, require_some-Post, require_amount-Post, query-Post, write-Post, time_now-Post,
  peek-Post, granted-Post,
}
use tiger_swap.Governance.Decay.{IsEnv, voting_power-new_lock}
use tiger_swap.Governance.Effects.{Opens, Withdraws}
use tiger_swap.Governance.Finding.{find_lock_own}

pub parse_amount_pos : (raw : Text) (n : ℕ) → parse_amount raw ≡ inr n → 0 < n
unfolding parse_amount
parse_amount_pos raw n h = checked (trim_space raw) h
  where
    checked_pos : (z : Option ℤ) → checked_amount z ≡ inr n → 0 < n
    checked_pos none h = absurd (cc)
    checked_pos (some (negsuc m)) h = absurd (cc)
    checked_pos (some (pos m)) h = ground arith

    checked : (t : Text) → parse_trimmed t ≡ inr n → 0 < n
    checked [] h = absurd (cc)
    checked (c ∷ cs) h = checked_pos (set_string (c ∷ cs)) h

pos_of_min : (d : ℤ) (n : ℕ) → 0 < n → not (ltb_ℤ d (pos n)) ≡ true → d ≡ pos (pos_part d)
pos_of_min d n p h = ground arith

not_below : (d : ℤ) (n : ℕ) → not (ltb_ℤ d (pos n)) ≡ true → n ≤ pos_part d
not_below d n h = ground arith

not_above : (d : ℤ) (n : ℕ) → not (ltb_ℤ (pos n) d) ≡ true → pos_part d ≤ n
not_above d n h = ground arith

module _ (env : Env) (good : IsEnv env) (s : Site) (user : Option String) where
  abbrev OpensFor : Option LockBody → LockReply → Site → Type 0
  OpensFor body r t = Opens env s t user body r

  -- The end of CreateLock, where the lock is granted.
  granted :
      (u : String) (body : Option LockBody) (req : LockBody) (n d : ℕ)
      → user ≡ some u
      → body ≡ some req
      → parse_amount req.amount ≡ inr n
      → req.duration_seconds ≡ pos d
      → min_lock_seconds ≤ d
      → d ≤ max_lock_seconds
      → count_open u (env.clock s.calls) s.tables.locks ≡ 0
      → Post s (OpensFor body) (
          (require_some
                (voting_power env
                  (new_lock s.tables.next_id u n (env.clock (called (called s)).calls) d)
                  (env.clock (called (called s)).calls))
                panicked
              >>= λ power. pure (record {
                lock = new_lock s.tables.next_id u n (env.clock (called (called s)).calls) d;
                voting_power = power;
              }))
            (record {
              tables = add_lock u n (env.clock (called (called s)).calls) d s.tables;
              calls = (called (called (called s))).calls + 1;
            }))
  granted u body req n d who asked amount duration low high free =
      granted-Post s (OpensFor body) _ _ (pos n) panicked _
        (voting_power-new_lock env good s.tables.next_id u n (env.clock (called (called s)).calls) d
          low high)
        (
          omega arith,
          record {
            owner = u;
            is_owner = who;
            request = req;
            is_request = asked;
            amount = n;
            is_amount = amount;
            is_positive = parse_amount_pos req.amount n amount;
            duration = d;
            is_duration = duration;
            is_long = low;
            is_short = high;
            checked = s.calls;
            reading = (called (called s)).calls;
            is_later = omega arith;
            in_order = omega arith;
            in_time = omega arith;
            none_open = free;
            is_reply = refl;
            is_added = refl;
          },
        )

  pub create_lock-Opens :
      (body : Option LockBody) → Post s (OpensFor body) (create_lock env user body s)
  unfolding create_lock
  create_lock-Opens body =
      let Q : LockReply → Site → Type 0 = OpensFor body in
      require_some-Post s Q s user unauthorized _ (omega arith, refl)
        λ u who.
          require_some-Post s Q s body bad_body _ (omega arith, refl)
            λ req asked.
              require_amount-Post s Q s (parse_amount req.amount) _ (omega arith, refl)
                λ n amount.
                  require-Post s Q s _ lock_too_short _ (omega arith, refl)
                    λ low.
                      require-Post s Q s _ lock_too_long _ (omega arith, refl)
                        λ high. time_now-Post s Q s env _ (
                          query-Post s Q (called s) env database _ _ (omega arith, refl)
                            (require-Post s Q (called (called s)) _ lock_exists _
                              (omega arith, refl)
                              λ free. time_now-Post s Q (called (called s)) env _ (
                                peek-Post s Q _ _ _ (
                                  write-Post s Q _ env database _ _ (omega arith, refl)
                                    (granted u body req n (pos_part req.duration_seconds) who asked
                                      amount
                                      (pos_of_min req.duration_seconds min_lock_seconds
                                        (omega arith) low)
                                      (not_below req.duration_seconds _ low)
                                      (not_above req.duration_seconds _ high) (ground arith))))))

  abbrev WithdrawsFor : Option ℕ → Option ℤ → Site → Type 0
  WithdrawsFor id a t = Withdraws env s t user id a

  pub withdraw_lock-Withdraws :
      (id : Option ℕ) → Post s (WithdrawsFor id) (withdraw_lock env user id s)
  unfolding withdraw_lock
  withdraw_lock-Withdraws id =
      let Q : Option ℤ → Site → Type 0 = WithdrawsFor id in
      require_some-Post s Q s user unauthorized _ (omega arith, refl)
        λ u who.
          require_some-Post s Q s id bad_id _ (omega arith, refl)
            λ i key.
              query-Post s Q s env database _ _ (omega arith, refl)
                (require_some-Post s Q (called s) _ lock_not_found _ (omega arith, refl)
                  λ lock found.
                    require-Post s Q (called s) _ already_withdrawn _ (omega arith, refl)
                      λ held. time_now-Post s Q (called s) env _ (
                        require-Post s Q (called (called s)) _ not_expired _ (omega arith, refl)
                          λ expired.
                            write-Post s Q (called (called s)) env database _ _ (omega arith, refl)
                              (
                                omega arith,
                                record {
                                  owner = u;
                                  is_owner = who;
                                  key = i;
                                  is_key = key;
                                  lock = lock;
                                  is_lock = found;
                                  has_key = (find_lock_own i u s.tables.locks lock found).0;
                                  has_owner = (find_lock_own i u s.tables.locks lock found).1;
                                  is_held = ground arith;
                                  reading = (called s).calls;
                                  is_later = omega arith;
                                  in_time = omega arith;
                                  is_expired = ground arith;
                                  is_paid = refl;
                                  is_saved = refl;
                                },
                              )))
