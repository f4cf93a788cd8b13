-- ===== src/Money/RoundTrip.antt =====
-- pkg/money/money.go: an amount is read back from its column.
use maniflex.Prelude.{
  ℕ, zero, suc, ◌+◌, ◌-◌, ◌*◌, ◌/◌, ◌%◌, ◌^◌, ◌≤◌, ◌<◌, ◌≡◌, refl, ◌∙◌, ◌≢◌, ◌⊎◌, inl, inr, ap,
  true, false, some, [], ◌∷◌, ◌++◌, ltb, All, All-append, All-map, arith, Bool-cases,
}
use maniflex.Prelude.Int.{
  ℤ, pos, negsuc, IsInt64, neg_part, wrap64_id, wrap64-sub_pos, wrap64-sub_neg,
}
use maniflex.Prelude.Bytes.{
  Bytes, is_empty, format_uint, parse_int, IsDigit, is_space, trim-id, cut-append,
  parse_int-format_uint, digits, read_digits, unsigned_int, format_uint-IsDigit,
  format_uint-not_empty, read_digits-format_uint,
}
use maniflex.Money.Amount.{
  Amount, value, new, format, scan, column_of, whole_of, frac_of, print_int, two_digits, two_places,
  parse_decimal, join, negated,
}

two_digits-print :
    (n : ℕ)
    → n < 100
    → two_places (two_digits n ++ (b'0' ∷ b'0' ∷ [])) ≡ (48 + n / 10) ∷ (48 + n % 10) ∷ []
unfolding format_uint digits
two_digits-print zero h = refl
two_digits-print (suc n) h = elim (Bool-cases (ltb (suc n) 10)) [
  | inl one ↦ let tens : suc n / 10 ≡ 0 = ground arith in rw (one, tens)
  | inr two ↦
      let last : ltb (suc n / 10) 10 ≡ true = ground arith in
      let tens : suc n / 10 % 10 ≡ suc n / 10 = ground arith in rw (two, last, tens)
]

parse_two_digits :
    (n : ℕ) → n < 100 → parse_int (two_places (two_digits n ++ (b'0' ∷ b'0' ∷ []))) ≡ some (pos n)
parse_two_digits n h = rw (two_digits-print n h) (
    unsigned_int _ n ((omega arith, omega arith), ((omega arith, omega arith), tt)) refl
      (unfold read_digits in ground arith) (omega arith))

parse_print_int : (z : ℤ) → IsInt64 z → parse_int (print_int z) ≡ some z
unfolding parse_int
parse_print_int (pos n) h = parse_int-format_uint n h.0
parse_print_int (negsuc n) h =
    rw (format_uint-not_empty (suc n), read_digits-format_uint (suc n)) (ground arith)

join-positive : (w f : ℕ) → w * 100 + f < 2 ^ 63 → join (pos w) (pos f) ≡ pos (w * 100 + f)
join-positive w f h =
    rw (wrap64_id (pos (w * 100)) (omega arith, omega arith))
      (wrap64-sub_pos (w * 100 + f) 0 (w * 100 + f) (omega arith) h)

negated-suc : (n : ℕ) → 0 < n → negated n ≡ negsuc (n - 1)
negated-suc zero h = elim h [ ]
negated-suc (suc n) h = ap negsuc (omega arith)

join-negative :
    (w f : ℕ) → suc w * 100 + f ≤ 2 ^ 63 → join (negsuc w) (pos f) ≡ negsuc (w * 100 + f + 99)
join-negative w f h =
    rw
      (
        negated-suc (suc w * 100) (omega arith),
        wrap64_id (negsuc (suc w * 100 - 1)) (omega arith, omega arith),
      )
      (wrap64-sub_neg 0 (suc (suc w * 100 - 1) + f) (w * 100 + f + 99) (omega arith) (omega arith))

join-split :
    (c : ℤ)
    → IsInt64 c
    → (neg_part c ≡ 0) ⊎ (100 ≤ neg_part c)
    → join (whole_of c) (pos (frac_of c)) ≡ c
join-split (pos n) h k =
    join-positive (n / 100) ((n + 0) % 100) (omega (arith, h.0)) ∙ ap pos (omega arith)
join-split (negsuc n) h (inl k) = let no : 0 < 0 = omega (arith, k) in elim no [ ]
join-split (negsuc n) h (inr k) =
    let more : 0 < suc n / 100 = omega (arith, k) in
    rw (negated-suc (suc n / 100) more) (
      join-negative (suc n / 100 - 1) ((0 + suc n) % 100) (omega (arith, h.1))
      ∙ ap negsuc (omega arith))

abbrev IsPlain : ℕ → Type 0
IsPlain c = (45 ≤ c) × (c ≤ 57)

IsPlain-digit : (c : ℕ) → IsDigit c → IsPlain c
IsPlain-digit c h = (omega arith, h.1)

Plain-space : (c : ℕ) → IsPlain c → is_space c ≡ false
Plain-space c h = ground arith

format_uint-IsPlain : (n : ℕ) → All IsPlain (format_uint n)
format_uint-IsPlain n = All-map IsPlain-digit (format_uint n) (format_uint-IsDigit n)

print_int-IsPlain : (z : ℤ) → All IsPlain (print_int z)
print_int-IsPlain (pos n) = format_uint-IsPlain n
print_int-IsPlain (negsuc n) = ((omega arith, omega arith), format_uint-IsPlain (suc n))

digits_without_point : (n : ℕ) → All (λ c. c ≢ b'.') (format_uint n)
digits_without_point n =
    All-map (λ c d e. let no : 0 < 0 = omega (arith, d.0, e) in elim no [ ]) (format_uint n)
      (format_uint-IsDigit n)

print_int-one_piece : (z : ℤ) → All (λ c. c ≢ b'.') (print_int z)
print_int-one_piece (pos n) = digits_without_point n
print_int-one_piece (negsuc n) = ((λ e. ground arith), digits_without_point (suc n))

two_digits-IsPlain : (n : ℕ) → All IsPlain (two_digits n)
two_digits-IsPlain n = elim (Bool-cases (ltb n 10)) [
  | inl one ↦ rw one ((omega arith, omega arith), format_uint-IsPlain n)
  | inr two ↦ rw two (format_uint-IsPlain n)
]

format-IsPlain : (a : Amount) → All IsPlain (format a)
unfolding format
format-IsPlain a =
    All-append IsPlain (print_int (whole_of a.cents)) _ (print_int-IsPlain (whole_of a.cents)) (
      (omega arith, omega arith),
      All-append IsPlain (two_digits (frac_of a.cents)) _ (two_digits-IsPlain (frac_of a.cents))
          ((omega arith, omega arith), ((omega arith, omega arith), tt)),
    )

not_empty-append : (c : ℕ) (s t : Bytes) → is_empty (s ++ (c ∷ t)) ≡ false
not_empty-append c [] t = refl
not_empty-append c (x ∷ s) t = refl

whole-IsInt64 : (c : ℤ) → IsInt64 c → IsInt64 (whole_of c)
whole-IsInt64 (pos n) h = (omega (arith, h.0), omega arith)
whole-IsInt64 (negsuc n) h = elim (Bool-cases (ltb 0 (suc n / 100))) [
  | inl some_units ↦ rw (negated-suc (suc n / 100) (ground arith)) (omega arith, omega (arith, h.1))
  | inr no_unit ↦
      let nothing : suc n / 100 ≡ 0 = ground arith in rw nothing (omega arith, omega arith)
]

parse_decimal-format :
    (a : Amount)
    → IsInt64 a.cents
    → (neg_part a.cents ≡ 0) ⊎ (100 ≤ neg_part a.cents)
    → parse_decimal (format a) ≡ some a.cents
unfolding parse_decimal format
parse_decimal-format a h k =
    rw
      (
        trim-id (format a) (All-map Plain-space (format a) (format-IsPlain a)),
        not_empty-append b'.' (print_int (whole_of a.cents))
            (two_digits (frac_of a.cents) ++ (b'0' ∷ b'0' ∷ [])),
        cut-append b'.' (print_int (whole_of a.cents))
            (two_digits (frac_of a.cents) ++ (b'0' ∷ b'0' ∷ []))
            (print_int-one_piece (whole_of a.cents)),
        parse_print_int (whole_of a.cents) (whole-IsInt64 a.cents h),
        parse_two_digits (frac_of a.cents) (omega arith),
      )
      (ap some (join-split a.cents h k))

-- An amount is read back from its column as it was written, with the currency that the record held,
-- if it is not negative or is at least one whole unit below zero.
pub scan-column_of :
    (a b : Amount)
    → IsInt64 a.cents
    → (neg_part a.cents ≡ 0) ⊎ (100 ≤ neg_part a.cents)
    → scan (column_of a) b ≡ value (new a.cents b.currency)
unfolding scan column_of
scan-column_of a b h k = rw (parse_decimal-format a h k)
