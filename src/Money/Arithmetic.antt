-- ===== src/Money/Arithmetic.antt =====
-- pkg/money/money.go: Add and Sub undo each other, overflow included.
use maniflex.Prelude.{◌≡◌, ap, if◌then◌else◌, arith, inl, inr, Bool-cases, str_eq}
use maniflex.Prelude.Int.{ℤ, pos, negsuc, wrap64, IsInt64, ◌+ℤ◌, ◌-ℤ◌}
use maniflex.Money.Amount.{
  Amount, Outcome, value, currency_mismatch, parse_error, same_currency, new, add, sub,
}

wrap64-undo : (x y : ℤ) → IsInt64 x → IsInt64 y → wrap64 (wrap64 (x +ℤ y) -ℤ y) ≡ x
wrap64-undo (pos a) (pos b) h k = ground arith
wrap64-undo (pos a) (negsuc b) h k = ground arith
wrap64-undo (negsuc a) (pos b) h k = ground arith
wrap64-undo (negsuc a) (negsuc b) h k = ground arith

wrap64-redo : (x y : ℤ) → IsInt64 x → IsInt64 y → wrap64 (wrap64 (x -ℤ y) +ℤ y) ≡ x
wrap64-redo (pos a) (pos b) h k = ground arith
wrap64-redo (pos a) (negsuc b) h k = ground arith
wrap64-redo (negsuc a) (pos b) h k = ground arith
wrap64-redo (negsuc a) (negsuc b) h k = ground arith

-- What follows a result; an error stays.
abbrev pub follow : {A B : Type 0} → Outcome A → (A → Outcome B) → Outcome B
follow (value a) f = f a
follow currency_mismatch f = currency_mismatch
follow parse_error f = parse_error

-- Taking off again what was added gives the amount back, and so does adding what was taken off, also
-- where the result between has overflowed, if both are of one currency; of two currencies there is
-- neither a sum nor a difference, but the error.
pub sub-add :
    (a b : Amount)
    → IsInt64 a.cents
    → IsInt64 b.cents
    → (follow (add a b) (λ c. sub c b) ≡ (if same_currency a b then value a else currency_mismatch))
      × (follow (sub a b) (λ c. add c b)
          ≡ (if same_currency a b then value a else currency_mismatch))
unfolding add sub
sub-add a b h k = elim (Bool-cases (str_eq a.currency b.currency)) [
  | inl same ↦ (
    rw (same, same) (ap (λ c. value (new c a.currency)) (wrap64-undo a.cents b.cents h k)),
    rw (same, same) (ap (λ c. value (new c a.currency)) (wrap64-redo a.cents b.cents h k)),
  )
  | inr other ↦ (rw other, rw other)
]
