-- ===== src/Examples/MoneyRuns.antt =====
-- Runs of pkg/money/money.go.
use maniflex.Prelude.{◌-◌, ◌^◌, ◌≡◌, refl, inr, some, none, arith}
use maniflex.Prelude.Int.{pos, negsuc}
use maniflex.Prelude.Bytes.{codes, trim, cut, parse_int, format_uint}
use maniflex.Money.Amount.{
  Amount, value, new, add, sub, mul, format, parse_decimal, column_of, scan,
}
use maniflex.Money.RoundTrip.{scan-column_of}
use maniflex.Money.Arithmetic.{follow, sub-add}

abbrev price : Amount
price = new (pos 1234) "SAR"

abbrev refund : Amount
refund = new (negsuc 250) "SAR"

abbrev unset : Amount
unset = new (pos 0) ""

price_text : format price ≡ codes "12.3400"
unfolding format format_uint
price_text = refl

-- The sign of an amount of less than one unit is lost.
sign_lost : parse_decimal (format (new (negsuc 49) "SAR")) ≡ some (pos 50)
unfolding parse_decimal format trim format_uint cut parse_int
sign_lost = refl

thirds : mul price (pos 1) (pos 3) ≡ some (new (pos 411) "SAR")
unfolding mul
thirds = refl

by_zero : mul price (pos 1) (pos 0) ≡ none
unfolding mul
by_zero = refl

no_number : parse_decimal (codes "12.x4") ≡ none
unfolding parse_decimal trim cut parse_int
no_number = refl

scan-column_of_example : scan (column_of refund) unset ≡ value (new (negsuc 250) "")
scan-column_of_example = scan-column_of refund unset (omega arith, omega arith) (inr (omega arith))

abbrev largest : Amount
largest = new (pos (2 ^ 63 - 1)) "SAR"

sub-add_example :
    (follow (add largest price) (λ c. sub c price) ≡ value largest)
    × (follow (sub largest price) (λ c. add c price) ≡ value largest)
sub-add_example = sub-add largest price (omega arith, omega arith) (omega arith, omega arith)
