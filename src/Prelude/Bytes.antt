-- ===== src/Prelude/Bytes.antt =====
-- Texts as lists of bytes, and what the code uses of Go's strings and strconv packages on them.
use Prim.Native.Nat.{ℕ, zero, suc, ◌+◌, ◌-◌, ◌*◌, ◌/◌, ◌%◌, ◌^◌, ◌≤◌, ◌<◌}
use Prim.Native.Char.{code}
use Prim.Native.String.{String}
use mathlib.Core.Path.{◌≡◌, refl, ◌∙◌}
use mathlib.Core.Logic.{inl, inr, ◌≢◌}
use mathlib.Core.Bool.{Bool, true, false, ◌&&◌, ◌||◌}
use mathlib.Core.Option.{Option, none, some}
use mathlib.Core.List.{List, [], ◌∷◌, ◌++◌}
use native.Mathlib.Omega.{arith}
use maniflex.Prelude.Tests.{ltb, leb, ◌==◌, if◌then◌else◌, Bool-cases}
use maniflex.Prelude.Lists.{All}
use maniflex.Prelude.Int.{ℤ, pos, negsuc}

-- Texts, byte by byte.
abbrev pub Bytes : Type 0
Bytes = List ℕ

abbrev pub codes : String → Bytes
codes String.[] = []
codes (String.◌∷◌ c s) = code c ∷ codes s

abbrev pub is_digit : ℕ → Bool
is_digit c = leb 48 c && leb c 57

abbrev pub is_empty : Bytes → Bool
is_empty [] = true
is_empty (c ∷ s) = false

-- strconv.FormatUint(n, 10), from the last digit on.
unfoldable pub digits : ℕ → ℕ → Bytes → Bytes
digits zero n acc = acc
digits (suc fuel) n acc =
    let rest = digits fuel (n / 10) ((48 + n % 10) ∷ acc) in
    if ltb n 10 then (48 + n % 10) ∷ acc else rest

unfoldable pub format_uint : ℕ → Bytes
unfolding digits
format_uint n = digits (suc n) n []

-- Digits only, whatever number they stand for.
unfoldable pub read_digits : ℕ → Bytes → Option ℕ
read_digits acc [] = some acc
read_digits acc (c ∷ s) = if is_digit c then read_digits (acc * 10 + (c - 48)) s else none

abbrev below : ℕ → Option ℕ → Option ℕ
below bound none = none
below bound (some n) = if ltb n bound then some n else none

-- strconv.ParseUint(s, 10, 64), where an error is none.
unfoldable pub parse_uint : Bytes → Option ℕ
unfolding read_digits
parse_uint s = if is_empty s then none else below (2 ^ 64) (read_digits 0 s)

-- strconv.ParseInt(s, 10, 64): a sign, and then a number that fits.
abbrev unsigned : Bytes → Option ℕ
unsigned s = if is_empty s then none else read_digits 0 s

abbrev as_positive : Option ℕ → Option ℤ
as_positive none = none
as_positive (some n) = if ltb n (2 ^ 63) then some (pos n) else none

abbrev as_negative : Option ℕ → Option ℤ
as_negative none = none
as_negative (some zero) = some (pos zero)
as_negative (some (suc n)) = if ltb n (2 ^ 63) then some (negsuc n) else none

unfoldable pub parse_int : Bytes → Option ℤ
unfolding read_digits
parse_int [] = none
parse_int (c ∷ s) =
    if c == b'-'
    then as_negative (unsigned s)
    else if c == b'+'
    then as_positive (unsigned s)
    else as_positive (unsigned (c ∷ s))

-- What stands before and behind the last byte c: strings.LastIndexByte and the two slices.
unfoldable pub split_last : ℕ → Bytes → Option (Bytes × Bytes)
split_last c [] = none
split_last c (x ∷ s) = elim (split_last c s) [
  | some (a, b) ↦ some (x ∷ a, b)
  | none ↦ if x == c then some ([], s) else none
]

-- strings.Cut at a byte.
abbrev pub prepend : ℕ → Option (Bytes × Bytes) → Option (Bytes × Bytes)
prepend x none = none
prepend x (some (a, b)) = some (x ∷ a, b)

unfoldable pub cut : ℕ → Bytes → Option (Bytes × Bytes)
cut c [] = none
cut c (x ∷ s) = if x == c then some ([], s) else prepend x (cut c s)

-- strings.TrimSpace, on texts whose bytes are ASCII.
abbrev pub is_space : ℕ → Bool
is_space c = c == 32 || (leb 9 c && leb c 13)

unfoldable pub trim_left : Bytes → Bytes
trim_left [] = []
trim_left (c ∷ s) = if is_space c then trim_left s else c ∷ s

unfoldable pub trim_right : Bytes → Bytes
trim_right [] = []
trim_right (c ∷ s) = let rest = trim_right s in if is_space c && is_empty rest then [] else c ∷ rest

unfoldable pub trim : Bytes → Bytes
unfolding trim_left trim_right
trim s = trim_right (trim_left s)

-- strings.CutPrefix.
abbrev pub cut_prefix : Bytes → Bytes → Option Bytes
cut_prefix [] s = some s
cut_prefix (p ∷ ps) [] = none
cut_prefix (p ∷ ps) (c ∷ s) = if p == c then cut_prefix ps s else none

-- Digits as the predicate that the lemmas carry.
abbrev pub IsDigit : ℕ → Type 0
IsDigit c = (48 ≤ c) × (c ≤ 57)

digits-IsDigit : (fuel n : ℕ) (acc : Bytes) → All IsDigit acc → All IsDigit (digits fuel n acc)
unfolding digits
digits-IsDigit zero n acc h = h
digits-IsDigit (suc fuel) n acc h = elim (Bool-cases (ltb n 10)) [
  | inl one ↦ rw one ((omega arith, omega arith), h)
  | inr more ↦ rw more (digits-IsDigit fuel (n / 10) _ ((omega arith, omega arith), h))
]

digits-not_empty : (fuel n c : ℕ) (acc : Bytes) → is_empty (digits fuel n (c ∷ acc)) ≡ false
unfolding digits
digits-not_empty zero n c acc = refl
digits-not_empty (suc fuel) n c acc = elim (Bool-cases (ltb n 10)) [
  | inl one ↦ rw one
  | inr more ↦ rw more (digits-not_empty fuel (n / 10) _ _)
]

read_digits-digits :
    (fuel n : ℕ) (acc : Bytes) → n < fuel → read_digits 0 (digits fuel n acc) ≡ read_digits n acc
unfolding digits read_digits
read_digits-digits zero n acc h = elim h [ ]
read_digits-digits (suc fuel) n acc h = elim (Bool-cases (ltb n 10)) [
  | inl one ↦ rw one (ground arith)
  | inr more ↦ rw more (read_digits-digits fuel (n / 10) _ (ground arith) ∙ (ground arith))
]

pub format_uint-IsDigit : (n : ℕ) → All IsDigit (format_uint n)
unfolding format_uint
format_uint-IsDigit n = digits-IsDigit (suc n) n [] tt

pub format_uint-not_empty : (n : ℕ) → is_empty (format_uint n) ≡ false
unfolding format_uint digits
format_uint-not_empty n = elim (Bool-cases (ltb n 10)) [
  | inl one ↦ rw one
  | inr more ↦ rw more (digits-not_empty n (n / 10) _ [])
]

pub read_digits-format_uint : (n : ℕ) → read_digits 0 (format_uint n) ≡ some n
unfolding format_uint
read_digits-format_uint n =
    read_digits-digits (suc n) n [] (omega arith) ∙ (unfold read_digits in refl)

-- A number of 64 bits is read back as it was written.
pub parse_uint-format_uint : (n : ℕ) → n < 2 ^ 64 → parse_uint (format_uint n) ≡ some n
unfolding parse_uint
parse_uint-format_uint n h =
    rw (format_uint-not_empty n) (rw (read_digits-format_uint n) (ground arith))

pub unsigned_int :
    (s : Bytes) (n : ℕ)
    → All IsDigit s
    → is_empty s ≡ false
    → read_digits 0 s ≡ some n
    → n < 2 ^ 63
    → parse_int s ≡ some (pos n)
unfolding parse_int
unsigned_int [] n d e r h = cc
unsigned_int (c ∷ s) n d e r h =
    let minus : (c == b'-') ≡ false = (ground arith) in
    let plus : (c == b'+') ≡ false = (ground arith) in rw (minus, plus, r) (ground arith)

pub parse_int-format_uint : (n : ℕ) → n < 2 ^ 63 → parse_int (format_uint n) ≡ some (pos n)
parse_int-format_uint n h =
    unsigned_int (format_uint n) n (format_uint-IsDigit n) (format_uint-not_empty n)
      (read_digits-format_uint n) h

pub split_last-absent : (c : ℕ) (s : Bytes) → All (λ x. x ≢ c) s → split_last c s ≡ none
unfolding split_last
split_last-absent c [] h = refl
split_last-absent c (x ∷ s) h = rw (split_last-absent c s h.1, split_last) (ground (arith, h.0))

pub split_last-append :
    (c : ℕ) (a b : Bytes) → All (λ x. x ≢ c) b → split_last c (a ++ (c ∷ b)) ≡ some (a, b)
unfolding split_last
split_last-append c [] b h = rw (split_last-absent c b h, split_last) (ground arith)
split_last-append c (x ∷ a) b h = rw (split_last-append c a b h, split_last)

pub cut-append : (c : ℕ) (a b : Bytes) → All (λ x. x ≢ c) a → cut c (a ++ (c ∷ b)) ≡ some (a, b)
unfolding cut
cut-append c [] b h = ground arith
cut-append c (x ∷ a) b h =
    let other : (x == c) ≡ false = (ground (arith, h.0)) in rw other (rw (cut-append c a b h.1))

trim_right-id : (s : Bytes) → All (λ c. is_space c ≡ false) s → trim_right s ≡ s
unfolding trim_right
trim_right-id [] h = refl
trim_right-id (c ∷ s) h = rw (h.0, trim_right-id s h.1)

pub trim-id : (s : Bytes) → All (λ c. is_space c ≡ false) s → trim s ≡ s
unfolding trim
trim-id [] h = refl
trim-id (c ∷ s) h = rw h.0 (trim_right-id (c ∷ s) h)
