-- ===== src/Governance/Amounts.antt =====
-- Amounts in texts, as backend/services/governance_service.go reads and writes them: parseAmount and
-- parseAmountOrZero over strings.TrimSpace and big.Int's SetString and String, to the base 10.
use Prim.Native.Char.{code}
use mathlib.Core.List.{reverse}
use mathlib.Core.Option
use tiger_swap.Prelude.{
  ℕ, zero, suc, ◌+◌, ◌-◌, ◌*◌, ◌/◌, ◌%◌, Bool, ◌&&◌, ◌||◌, List, [], ◌∷◌, ◌++◌, Option, none, some,
  ◌⊎◌, inl, inr, ltb, leb, ◌==◌, if◌then◌else◌, String,
}
use tiger_swap.Prelude.Int.{ℤ, pos, negsuc, sub_ℕ}

-- A Go string, as its code points.
abbrev pub Text : Type 0
Text = List ℕ

abbrev pub codes : String → Text
codes String.[] = []
codes (String.◌∷◌ c s) = code c ∷ codes s

-- unicode.IsSpace
unfoldable pub is_space : ℕ → Bool
is_space c =
    (leb 9 c && leb c 13)
    || c == 32
    || c == 0x85
    || c == 0xa0
    || c == 0x1680
    || (leb 0x2000 c && leb c 0x200a)
    || c == 0x2028
    || c == 0x2029
    || c == 0x202f
    || c == 0x205f
    || c == 0x3000

unfoldable pub trim_left : Text → Text
trim_left [] = []
trim_left (c ∷ cs) = if is_space c then trim_left cs else c ∷ cs

unfoldable pub trim_space : Text → Text
trim_space t = reverse (trim_left (reverse (trim_left t)))

unfoldable pub is_digit : ℕ → Bool
is_digit c = leb b'0' c && leb c b'9'

unfoldable pub read_digits : ℕ → Text → Option ℕ
unfolding is_digit
read_digits acc [] = some acc
read_digits acc (c ∷ cs) = if is_digit c then read_digits (acc * 10 + (c - b'0')) cs else none

unfoldable pub read_nat : Text → Option ℕ
read_nat [] = none
read_nat (c ∷ cs) = read_digits 0 (c ∷ cs)

-- SetString(t, 10)
unfoldable pub set_string : Text → Option ℤ
set_string [] = none
set_string (c ∷ cs) =
    if c == b'-'
    then Option.map (sub_ℕ 0) (read_nat cs)
    else if c == b'+'
    then Option.map pos (read_nat cs)
    else Option.map pos (read_nat (c ∷ cs))

-- A number has no more digits than its value and one.
unfoldable pub digits : ℕ → ℕ → Text
digits zero n = []
digits (suc fuel) n =
    let high = digits fuel (n / 10) in
    if ltb n 10 then (b'0' + n) ∷ [] else high ++ (b'0' + n % 10) ∷ []

-- String()
unfoldable pub to_text : ℤ → Text
to_text (pos n) = digits (suc n) n
to_text (negsuc n) = b'-' ∷ digits (suc (suc n)) (suc n)

pub data AmountError : Type 0 where
  missing not_integer not_positive negative : AmountError

-- The integer as a number where it is positive.
unfoldable pub checked_amount : Option ℤ → AmountError ⊎ ℕ
checked_amount none = inl not_integer
checked_amount (some (pos n)) = if n == 0 then inl not_positive else inr n
checked_amount (some (negsuc n)) = inl not_positive

unfoldable pub parse_trimmed : Text → AmountError ⊎ ℕ
unfolding checked_amount
parse_trimmed [] = inl missing
parse_trimmed (c ∷ cs) = checked_amount (set_string (c ∷ cs))

unfoldable pub parse_amount : Text → AmountError ⊎ ℕ
unfolding parse_trimmed
parse_amount raw = parse_trimmed (trim_space raw)

unfoldable pub checked_weight : Option ℤ → AmountError ⊎ ℕ
checked_weight none = inl not_integer
checked_weight (some (pos n)) = inr n
checked_weight (some (negsuc n)) = inl negative

unfoldable pub parse_weight : Text → AmountError ⊎ ℕ
unfolding checked_weight
parse_weight [] = inl missing
parse_weight (c ∷ cs) = checked_weight (set_string (c ∷ cs))

unfoldable pub parse_amount_or_zero : Text → AmountError ⊎ ℕ
unfolding parse_weight
parse_amount_or_zero raw = parse_weight (trim_space raw)
