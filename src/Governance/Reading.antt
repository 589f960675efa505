-- ===== src/Governance/Reading.antt =====
-- parseAmount reads back what String writes, with white space around it or none.
use mathlib.Core.List.{reverse, reverse-append, reverse-cons, reverse-reverse}
use tiger_swap.Prelude.{
  ℕ, zero, suc, ◌+◌, ◌-◌, ◌*◌, ◌/◌, ◌%◌, ◌<◌, ◌≡◌, refl, true, false, [], ◌∷◌, ◌++◌, none, some,
  inl, inr, arith, ltb, ◌==◌, Bool-cases, All, All-append, All-map, ap, ◌∙◌,
}
use tiger_swap.Prelude.Int.{pos}
use tiger_swap.Governance.Amounts.{
  Text, is_space, trim_left, trim_space, is_digit, read_digits, read_nat, set_string, digits,
  to_text, checked_amount, parse_trimmed, parse_amount,
}

abbrev IsDigit : ℕ → Type 0
IsDigit c = is_digit c ≡ true

abbrev IsSpace : ℕ → Type 0
IsSpace c = is_space c ≡ true

abbrev IsMark : ℕ → Type 0
IsMark c = is_space c ≡ false

All-reverse : (P : ℕ → Type 0) (t : Text) → All P t → All P (reverse t)
All-reverse P [] a = tt
All-reverse P (c ∷ cs) a =
    rw (reverse-cons c cs) (All-append P (reverse cs) (c ∷ []) (All-reverse P cs a.1) (a.0, tt))

digit-IsMark : (c : ℕ) → IsDigit c → IsMark c
unfolding is_digit is_space
digit-IsMark c h = ground arith

digits-IsDigit : (fuel n : ℕ) → All IsDigit (digits fuel n)
unfolding digits is_digit
digits-IsDigit zero n = tt
digits-IsDigit (suc fuel) n = elim (Bool-cases (ltb n 10)) [
  | inl small ↦ rw (small, digits) (ground arith, tt)
  | inr large ↦
      rw (large, digits)
        (All-append IsDigit (digits fuel (n / 10)) ((b'0' + n % 10) ∷ [])
          (digits-IsDigit fuel (n / 10)) (ground arith, tt))
]

read_digits-append :
    (t u : Text) (acc m : ℕ)
    → read_digits acc t ≡ some m
    → read_digits acc (t ++ u) ≡ read_digits m u
unfolding read_digits
read_digits-append [] u acc m h = ap (λ (n : ℕ). read_digits n u) (ground arith)
read_digits-append (c ∷ cs) u acc m h = elim (Bool-cases (is_digit c)) [
  | inl good ↦
      rw (good, read_digits)
        (read_digits-append cs u (acc * 10 + (c - b'0')) m (rw (good, read_digits) at h))
  | inr bad ↦ absurd (let none_read : none ≡ some m = rw (bad, read_digits) at h in cc)
]

one_digit : (d acc : ℕ) → d < 10 → read_digits acc ((b'0' + d) ∷ []) ≡ some (acc * 10 + d)
unfolding read_digits
one_digit d acc h = ground arith

read_digits-digits : (fuel n : ℕ) → n < fuel → read_digits 0 (digits fuel n) ≡ some n
unfolding digits
read_digits-digits zero n h = elim h [ ]
read_digits-digits (suc fuel) n h = elim (Bool-cases (ltb n 10)) [
  | inl small ↦ rw (small, digits) (one_digit n 0 (ground arith) ∙ ap some (omega arith))
  | inr large ↦
      rw (large, digits)
        (read_digits-append (digits fuel (n / 10)) ((b'0' + n % 10) ∷ []) 0 (n / 10)
            (read_digits-digits fuel (n / 10) (ground arith))
          ∙ one_digit (n % 10) (n / 10) (omega arith)
          ∙ ap some (omega arith))
]

read_trimmed :
    (n : ℕ) (t : Text) → 0 < n → All IsDigit t → read_digits 0 t ≡ some n → parse_trimmed t ≡ inr n
unfolding parse_trimmed set_string read_nat checked_amount is_digit read_digits
read_trimmed n [] h d e = absurd (let zero_read : some 0 ≡ some n = e in ground arith)
read_trimmed n (c ∷ cs) h d e =
    let minus : (c == b'-') ≡ false = ground (arith, d.0) in
    let plus : (c == b'+') ≡ false = ground (arith, d.0) in
    let positive : (n == 0) ≡ false = ground arith in
    rw (minus, plus, e, parse_trimmed) (rw positive refl)

trim_left-spaces : (sp t : Text) → All IsSpace sp → trim_left (sp ++ t) ≡ trim_left t
unfolding trim_left
trim_left-spaces [] t h = refl
trim_left-spaces (c ∷ cs) t h = rw h.0 (trim_left-spaces cs t h.1)

trim_left-marks : (t : Text) → All IsMark t → trim_left t ≡ t
unfolding trim_left
trim_left-marks [] h = refl
trim_left-marks (c ∷ cs) h = rw h.0 refl

-- The white space after a text that starts with a mark stays at the left end.
trim_left-first :
    (t sp : Text) (n : ℕ)
    → All IsMark t
    → read_digits 0 t ≡ some n
    → 0 < n
    → trim_left (t ++ sp) ≡ t ++ sp
unfolding trim_left read_digits
trim_left-first [] sp n h e p = absurd (ground arith)
trim_left-first (c ∷ cs) sp n h e p = rw h.0 refl

trim_space-around :
    (before after t : Text) (n : ℕ)
    → All IsSpace before
    → All IsSpace after
    → All IsMark t
    → read_digits 0 t ≡ some n
    → 0 < n
    → trim_space (before ++ (t ++ after)) ≡ t
unfolding trim_space
trim_space-around before after t n b a m e p =
    ap (λ (x : Text). reverse (trim_left (reverse x)))
      (trim_left-spaces before (t ++ after) b ∙ trim_left-first t after n m e p)
    ∙ ap (λ (x : Text). reverse (trim_left x)) (reverse-append t after)
    ∙ ap reverse (
        trim_left-spaces (reverse after) (reverse t) (All-reverse IsSpace after a)
        ∙ trim_left-marks (reverse t) (All-reverse IsMark t m))
    ∙ reverse-reverse t

-- parseAmount reads the text that String writes of a positive number as that number, whatever white space
-- stands before and after it.
pub parse_amount-to_text :
    (before after : Text) (n : ℕ)
    → All (λ c. is_space c ≡ true) before
    → All (λ c. is_space c ≡ true) after
    → 0 < n
    → parse_amount (before ++ (to_text (pos n) ++ after)) ≡ inr n
unfolding parse_amount to_text
parse_amount-to_text before after n b a p =
    let t = digits (suc n) n in
    let good = digits-IsDigit (suc n) n in
    let e = read_digits-digits (suc n) n (omega arith) in
    let marks = All-map t good (λ c h. digit-IsMark c h) in
    ap parse_trimmed (trim_space-around before after t n b a marks e p) ∙ read_trimmed n t p good e
