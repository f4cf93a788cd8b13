-- ===== src/Examples/LedgerRuns.antt =====
-- Runs of pkg/ledger/ledger.go on a database that counts its rows.
use maniflex.Prelude.{
  ℕ, ◌+◌, ◌^◌, ◌≡◌, refl, inr, String, Option, none, some, List, [], ◌∷◌, ltb, if◌then◌else◌, arith,
}
use maniflex.Prelude.Int.{pos}
use maniflex.Request.Context.Map.{lookup, insert, delete, has}
use maniflex.Money.Amount.{Amount, new}
use maniflex.Ledger.Lines.{
  LineInput, insert_line_failed, imbalanced, both_sides, validate_lines, validate_balance,
  debit_side, credit_side,
}
use maniflex.Ledger.Post.{EntryInput, Database, LedgerContext, ok, failed, checks, post}
use maniflex.Ledger.Balanced.{total, post_balanced}
use maniflex.Ledger.Closed.{Tracks}
use maniflex.Ledger.Atomic.{Transactional, post_atomic}

-- The rows that are committed, and those of the open transaction. There is room for three.
record Store : Type 0 where
  kept : ℕ
  pending : ℕ
  active : Option String

abbrev IsActive : String → Store → Type 0
IsActive tx s = s.active ≡ some tx

abbrev store_db : Database Store String
store_db = record {
  begin_tx = λ s. (record s { pending = 0; active = some "tx" }, ok "tx");
  create_entry = λ tx e s. (record s { pending = s.pending + 1 }, ok "e1");
  create_line = λ tx l s.
      if ltb s.pending 3
      then (record s { pending = s.pending + 1 }, none)
      else (s, some "disk full");
  commit = λ tx s. (record { kept = s.kept + s.pending; pending = 0; active = none }, none);
  rollback = λ tx s. record s { pending = 0; active = none };
}

abbrev seven_rows : LedgerContext Store String
seven_rows = record { tx = none; world = record { kept = 7; pending = 0; active = none } }

abbrev invoice : EntryInput
invoice = record { description = "invoice"; reference = ""; period_id = "2026-05"; date = 0 }

abbrev leg : String → Amount → Amount → LineInput
leg account d c = record { account_id = account; debit = d; credit = c; notes = "" }

abbrev zero_amount : Amount
zero_amount = new (pos 0) ""

abbrev sar : ℕ → Amount
sar n = new (pos n) "SAR"

abbrev sale : List LineInput
sale = leg "ar" (sar 100) zero_amount ∷ leg "rev" zero_amount (sar 100) ∷ []

abbrev split_sale : List LineInput
split_sale =
    leg "ar" (sar 100) zero_amount
    ∷ leg "rev" zero_amount (sar 80)
    ∷ leg "vat" zero_amount (sar 20)
    ∷ []

sale_posts :
    post store_db invoice sale seven_rows
    ≡ (record { tx = none; world = record { kept = 10; pending = 0; active = none } }, ok "e1")
unfolding post validate_lines validate_balance lookup insert delete has
sale_posts = refl

uneven :
    checks (leg "ar" (sar 100) zero_amount ∷ leg "rev" zero_amount (sar 90) ∷ [])
    ≡ some (imbalanced "SAR" (pos 100) (pos 90))
unfolding validate_lines validate_balance lookup insert delete has
uneven = refl

two_sides :
    checks (leg "ar" (sar 100) (sar 100) ∷ leg "rev" zero_amount (sar 100) ∷ [])
    ≡ some (both_sides 0)
unfolding validate_lines
two_sides = refl

-- Four debits whose sum is 2 ^ 64 pass the checks without a credit.
wraps :
    checks (
      leg "a" (sar (2 ^ 62)) zero_amount
      ∷ leg "b" (sar (2 ^ 62)) zero_amount
      ∷ leg "c" (sar (2 ^ 62)) zero_amount
      ∷ leg "d" (sar (2 ^ 62)) zero_amount
      ∷ [])
    ≡ none
unfolding validate_lines validate_balance lookup insert delete has
wraps = refl

sale_answers : (post store_db invoice sale seven_rows).1 ≡ ok "e1"
unfolding post validate_lines validate_balance lookup insert delete has
sale_answers = refl

post_balanced_example : total debit_side "SAR" sale ≡ total credit_side "SAR" sale
post_balanced_example =
    post_balanced store_db invoice sale seven_rows "e1" "SAR" sale_answers (omega arith)
      (omega arith)

store_db-Transactional : Transactional store_db (λ s. s.kept)
store_db-Transactional = record {
  begun = λ w. refl;
  entry_hidden = λ t e w. refl;
  line_hidden = λ t l w. ground arith;
  rolled_back = λ t w. refl;
  not_committed = λ t w e h. cc;
}

store_db-Tracks : Tracks store_db IsActive
store_db-Tracks = record {
  begins = λ u w h. inr (cc);
  creates_entry = λ u t e w h. h;
  creates_line = λ u t l w h. ground arith;
  commits = λ u t w h. cc;
  rolls_back = λ u t w h. cc;
}

split_sale_fails :
    (post store_db invoice split_sale seven_rows).1 ≡ failed (insert_line_failed 2 "disk full")
unfolding post validate_lines validate_balance lookup insert delete has
split_sale_fails = refl

post_atomic_example :
    ((post store_db invoice split_sale seven_rows).0.world.kept ≡ 7)
    × ((post store_db invoice split_sale seven_rows).0.tx ≡ none)
    × ((u : String)
        → IsActive u (post store_db invoice split_sale seven_rows).0.world
        → IsActive u seven_rows.world)
post_atomic_example =
    post_atomic store_db (λ s. s.kept) IsActive invoice split_sale seven_rows
      (insert_line_failed 2 "disk full") store_db-Transactional store_db-Tracks split_sale_fails
