-- ===== src/Ledger/Lines.antt =====
-- pkg/ledger/ledger.go: the legs of an entry and what Post checks of them before any work on the database.
use maniflex.Prelude.{
  ℕ, ◌+◌, String, Bool, false, not, ◌&&◌, ◌||◌, Option, none, some, List, [], ◌∷◌, ◌==◌, str_eq,
  if◌then◌else◌,
}
use maniflex.Prelude.Int.{ℤ, pos, negsuc, wrap64, ◌+ℤ◌}
use maniflex.Request.Context.Map.{Map, lookup, insert, has}
use maniflex.Money.Amount.{Amount, is_zero_ℤ, negative}

pub record LineInput : Type 0 where
  pub account_id : String
  pub debit : Amount
  pub credit : Amount
  pub notes : String

-- Why Post refuses or fails. A line is named by its index; the database's own errors are texts.
pub data LedgerError : Type 0 where
  no_lines : LedgerError
  account_required : ℕ → LedgerError
  negative_amount : ℕ → LedgerError
  both_sides : ℕ → LedgerError
  both_zero : ℕ → LedgerError
  currency_required : ℕ → LedgerError
  imbalanced : String → ℤ → ℤ → LedgerError
  begin_failed : String → LedgerError
  insert_entry_failed : String → LedgerError
  insert_line_failed : ℕ → String → LedgerError
  commit_failed : String → LedgerError

abbrev pub eq_ℤ : ℤ → ℤ → Bool
eq_ℤ (pos a) (pos b) = a == b
eq_ℤ (negsuc a) (negsuc b) = a == b
eq_ℤ _ _ = false

-- The currency of the amount that is not zero.
abbrev pub line_currency : LineInput → String
line_currency l = if not (is_zero_ℤ l.debit.cents) then l.debit.currency else l.credit.currency

abbrev pub line_error : ℕ → LineInput → Option LedgerError
line_error i l =
    if str_eq l.account_id ""
    then some (account_required i)
    else if negative l.debit.cents || negative l.credit.cents
    then some (negative_amount i)
    else if not (is_zero_ℤ l.debit.cents) && not (is_zero_ℤ l.credit.cents)
    then some (both_sides i)
    else if is_zero_ℤ l.debit.cents && is_zero_ℤ l.credit.cents
    then some (both_zero i)
    else if str_eq (line_currency l) ""
    then some (currency_required i)
    else none

-- The first error, or what comes next.
abbrev pub or_else {ℓ} : {A : Type ℓ} → Option A → Option A → Option A
or_else (some e) rest = some e
or_else none rest = rest

-- The loop, from line i on.
unfoldable pub validate_lines : ℕ → List LineInput → Option LedgerError
validate_lines i [] = none
validate_lines i (l ∷ ls) = or_else (line_error i l) (validate_lines (i + 1) ls)

-- m[cur], which is 0 where nothing stands.
abbrev pub or_zero : Option ℤ → ℤ
or_zero none = pos 0
or_zero (some z) = z

abbrev pub amount_at : String → Map ℤ → ℤ
amount_at cur m = or_zero (lookup cur m)

-- m[cur] += z
abbrev pub add_to : String → ℤ → Map ℤ → Map ℤ
add_to cur z m = insert cur (wrap64 (amount_at cur m +ℤ z)) m

-- One of the two sums per currency that the first loop builds.
unfoldable pub gather : (LineInput → ℤ) → List LineInput → Map ℤ → Map ℤ
gather side [] m = m
gather side (l ∷ ls) m = gather side ls (add_to (line_currency l) (side l) m)

abbrev pub debit_side : LineInput → ℤ
debit_side l = l.debit.cents

abbrev pub credit_side : LineInput → ℤ
credit_side l = l.credit.cents

-- The loop over the debits; the order of a map's entries is the list's here.
unfoldable pub check_debits : Map ℤ → Map ℤ → Option LedgerError
check_debits credits [] = none
check_debits credits ((cur, d) ∷ m) =
    if not (eq_ℤ d (amount_at cur credits))
    then some (imbalanced cur d (amount_at cur credits))
    else check_debits credits m

-- The loop over the credits, for currencies that have no debit.
unfoldable pub check_credits : Map ℤ → Map ℤ → Option LedgerError
check_credits debits [] = none
check_credits debits ((cur, cr) ∷ m) =
    if not (has cur debits) && not (eq_ℤ cr (pos 0))
    then some (imbalanced cur (pos 0) cr)
    else check_credits debits m

abbrev pub check_sums : Map ℤ → Map ℤ → Option LedgerError
check_sums debits credits = or_else (check_debits credits debits) (check_credits debits credits)

unfoldable pub validate_balance : List LineInput → Option LedgerError
unfolding gather check_debits check_credits
validate_balance lines = check_sums (gather debit_side lines []) (gather credit_side lines [])
