-- ===== src/Prelude/Itoa.antt =====
-- strconv.Itoa and strconv.Atoi on texts.
use Prim.Native.Nat.{ℕ, zero, suc, ◌+◌, ◌-◌, ◌^◌, ◌<◌}
use Prim.Native.Char.{code}
use Prim.Native.String.{String, char_at}
use mathlib.Core.Path.{◌≡◌, refl, ◌∙◌}
use mathlib.Core.Bool.{false}
use mathlib.Core.Option.{Option, none, some}
use mathlib.Core.List.{[], ◌∷◌}
use native.Mathlib.Omega.{arith}
use maniflex.Prelude.Tests.{ltb, ◌==◌, if◌then◌else◌}
use maniflex.Prelude.Lists.{All}
use maniflex.Prelude.Int.{ℤ, pos, negsuc}
use maniflex.Prelude.Bytes.{
  Bytes, codes, is_empty, IsDigit, format_uint, read_digits, format_uint-IsDigit,
  format_uint-not_empty, read_digits-format_uint,
}

-- The text of digits.
text_of : Bytes → String
text_of [] = String.[]
text_of (c ∷ s) = String.◌∷◌ (char_at "0123456789" (c - 48)) (text_of s)

unfoldable pub itoa : ℕ → String
unfolding text_of format_uint
itoa n = text_of (format_uint n)

-- What Atoi returns beside its error: 0 for what is no number, and the nearest int for one that does
-- not fit.
abbrev at_most : Option ℕ → ℤ
at_most none = pos 0
at_most (some n) = if ltb n (2 ^ 63) then pos n else pos (2 ^ 63 - 1)

abbrev at_least : Option ℕ → ℤ
at_least none = pos 0
at_least (some zero) = pos 0
at_least (some (suc n)) = if ltb n (2 ^ 63) then negsuc n else negsuc (2 ^ 63 - 1)

abbrev magnitude : Bytes → Option ℕ
magnitude s = if is_empty s then none else read_digits 0 s

abbrev atoi_bytes : Bytes → ℤ
atoi_bytes [] = pos 0
atoi_bytes (c ∷ s) =
    if c == b'-'
    then at_least (magnitude s)
    else if c == b'+'
    then at_most (magnitude s)
    else at_most (magnitude (c ∷ s))

unfoldable pub atoi : String → ℤ
unfolding read_digits
atoi s = atoi_bytes (codes s)

digit_code : (d : ℕ) → d < 10 → code (char_at "0123456789" d) ≡ 48 + d
digit_code zero h = refl
digit_code (suc zero) h = refl
digit_code (suc (suc zero)) h = refl
digit_code (suc (suc (suc zero))) h = refl
digit_code (suc (suc (suc (suc zero)))) h = refl
digit_code (suc (suc (suc (suc (suc zero))))) h = refl
digit_code (suc (suc (suc (suc (suc (suc zero)))))) h = refl
digit_code (suc (suc (suc (suc (suc (suc (suc zero))))))) h = refl
digit_code (suc (suc (suc (suc (suc (suc (suc (suc zero)))))))) h = refl
digit_code (suc (suc (suc (suc (suc (suc (suc (suc (suc zero))))))))) h = refl
digit_code (suc (suc (suc (suc (suc (suc (suc (suc (suc (suc d)))))))))) h = absurd (omega arith)

codes-text_of : (s : Bytes) → All IsDigit s → codes (text_of s) ≡ s
unfolding text_of
codes-text_of [] h = refl
codes-text_of (c ∷ s) (d, hs) =
    let here : code (char_at "0123456789" (c - 48)) ≡ c =
      digit_code (c - 48) (omega arith) ∙ omega arith in
    rw (here, codes-text_of s hs)

atoi_digits :
    (s : Bytes) (n : ℕ)
    → All IsDigit s
    → is_empty s ≡ false
    → read_digits 0 s ≡ some n
    → n < 2 ^ 63
    → atoi_bytes s ≡ pos n
atoi_digits [] n d e r h = cc
atoi_digits (c ∷ s) n d e r h =
    let minus : (c == b'-') ≡ false = ground arith in
    let plus : (c == b'+') ≡ false = ground arith in rw (minus, plus, r) (ground arith)

-- An int that is not negative is read back as it was written.
pub atoi-itoa : (n : ℕ) → n < 2 ^ 63 → atoi (itoa n) ≡ pos n
unfolding atoi itoa
atoi-itoa n h = rw (codes-text_of (format_uint n) (format_uint-IsDigit n)) (
    atoi_digits (format_uint n) n (format_uint-IsDigit n) (format_uint-not_empty n)
      (read_digits-format_uint n) h)
