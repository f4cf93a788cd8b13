-- ===== src/Money/Amount.antt =====
-- pkg/money/money.go: Amount, its arithmetic, and the decimal text that stands in a column.
--
-- The cents are an int64: what an operation yields is wrapped as Go wraps it. Scan takes a text, the
-- integer of an integer column, or NULL; a float column is left out, since it goes through the floating
-- point numbers of the machine, and so is the JSON form, which encoding/json makes of the two fields.
use maniflex.Prelude.{
  ℕ, zero, suc, ◌+◌, ◌*◌, ◌/◌, ◌%◌, String, Bool, true, false, not, Option, none, some, [], ◌∷◌,
  ◌++◌, ltb, ◌==◌, str_eq, if◌then◌else◌,
}
use maniflex.Prelude.Int.{ℤ, pos, negsuc, pos_part, neg_part, wrap64, ◌+ℤ◌, ◌-ℤ◌}
use maniflex.Prelude.Bytes.{Bytes, format_uint, parse_int, trim, cut, is_empty}

pub record Amount : Type 0 where
  pub cents : ℤ
  pub currency : String

-- A result, or the error of the operation.
pub data Outcome (A : Type 0) : Type 0 where
  value : A → Outcome A
  currency_mismatch : Outcome A
  parse_error : Outcome A

-- New
abbrev pub new : ℤ → String → Amount
new cents currency = record { cents = cents; currency = currency }

abbrev pub is_zero_ℤ : ℤ → Bool
is_zero_ℤ (pos n) = n == 0
is_zero_ℤ (negsuc n) = false

abbrev pub is_zero : Amount → Bool
is_zero a = is_zero_ℤ a.cents

abbrev pub same_currency : Amount → Amount → Bool
same_currency a b = str_eq a.currency b.currency

unfoldable pub add : Amount → Amount → Outcome Amount
add a b =
    if not (same_currency a b)
    then currency_mismatch
    else value (new (wrap64 (a.cents +ℤ b.cents)) a.currency)

unfoldable pub sub : Amount → Amount → Outcome Amount
sub a b =
    if not (same_currency a b)
    then currency_mismatch
    else value (new (wrap64 (a.cents -ℤ b.cents)) a.currency)

-- The product of two integers, and the quotient that is cut off towards 0.
abbrev pub negated : ℕ → ℤ
negated zero = pos 0
negated (suc n) = negsuc n

abbrev pub times : ℤ → ℤ → ℤ
times (pos a) (pos b) = pos (a * b)
times (pos a) (negsuc b) = negated (a * suc b)
times (negsuc a) (pos b) = negated (suc a * b)
times (negsuc a) (negsuc b) = pos (suc a * suc b)

abbrev pub quotient : ℤ → ℤ → Option ℤ
quotient a (pos zero) = none
quotient (pos a) (pos (suc b)) = some (pos (a / suc b))
quotient (negsuc a) (pos (suc b)) = some (negated (suc a / suc b))
quotient (pos a) (negsuc b) = some (negated (a / suc b))
quotient (negsuc a) (negsuc b) = some (pos (suc a / suc b))

abbrev scaled : String → Option ℤ → Option Amount
scaled currency none = none
scaled currency (some c) = some (new (wrap64 c) currency)

-- A denominator of 0 panics.
unfoldable pub mul : Amount → ℤ → ℤ → Option Amount
mul a num denom = scaled a.currency (quotient (wrap64 (times a.cents num)) denom)

-- %d of an integer, and %02d of a number below 100.
abbrev pub print_int : ℤ → Bytes
print_int (pos n) = format_uint n
print_int (negsuc n) = b'-' ∷ format_uint (suc n)

abbrev pub two_digits : ℕ → Bytes
two_digits n = if ltb n 10 then b'0' ∷ format_uint n else format_uint n

-- cents / 100, and the size of cents % 100.
abbrev pub whole_of : ℤ → ℤ
whole_of (pos n) = pos (n / 100)
whole_of (negsuc n) = negated (suc n / 100)

abbrev pub frac_of : ℤ → ℕ
frac_of c = (pos_part c + neg_part c) % 100

unfoldable pub format : Amount → Bytes
format a =
    print_int (whole_of a.cents) ++ (b'.' ∷ (two_digits (frac_of a.cents) ++ (b'0' ∷ b'0' ∷ [])))

-- Exactly two digits of the fraction: what is behind them is cut off, what lacks is a zero.
abbrev pub two_places : Bytes → Bytes
two_places [] = b'0' ∷ b'0' ∷ []
two_places (c ∷ []) = c ∷ b'0' ∷ []
two_places (c ∷ d ∷ s) = c ∷ d ∷ []

abbrev pub negative : ℤ → Bool
negative (pos n) = false
negative (negsuc n) = true

-- The integer part and the fraction, as one number of cents.
abbrev pub join : ℤ → ℤ → ℤ
join whole frac =
    if negative whole
    then wrap64 (wrap64 (times whole (pos 100)) -ℤ frac)
    else wrap64 (wrap64 (times whole (pos 100)) +ℤ frac)

abbrev pub with_frac : ℤ → Option ℤ → Option ℤ
with_frac whole none = none
with_frac whole (some frac) = some (join whole frac)

abbrev pub with_whole : Option ℤ → Option ℤ → Option ℤ
with_whole none frac = none
with_whole (some whole) frac = with_frac whole frac

-- strings.SplitN(s, ".", 2)
abbrev pub parse_parts : Bytes → Option (Bytes × Bytes) → Option ℤ
parse_parts s none = with_whole (parse_int s) (some (pos 0))
parse_parts s (some (first, second)) = with_whole (parse_int first) (parse_int (two_places second))

abbrev pub parse_trimmed : Bytes → Option ℤ
parse_trimmed s = if is_empty s then some (pos 0) else parse_parts s (cut b'.' s)

unfoldable pub parse_decimal : Bytes → Option ℤ
parse_decimal s = parse_trimmed (trim s)

-- What a column hands over.
pub data Column : Type 0 where
  text : Bytes → Column
  integer : ℤ → Column
  null : Column

abbrev set_cents : Amount → Option ℤ → Outcome Amount
set_cents a none = parse_error
set_cents a (some c) = value (record a { cents = c })

unfoldable pub scan : Column → Amount → Outcome Amount
unfolding parse_decimal
scan (text s) a = set_cents a (parse_decimal s)
scan (integer n) a = value (record a { cents = wrap64 (times n (pos 100)) })
scan null a = value (record a { cents = pos 0 })

-- Value, the driver.Valuer.
unfoldable pub column_of : Amount → Column
unfolding format
column_of a = text (format a)
