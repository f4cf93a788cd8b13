-- ===== src/Prelude/Int.antt =====
-- Go's signed integers over the native numbers, under the library's names: sums and orders go through
-- the two parts of an integer, and `wrap64` is what an int64 keeps of a result.
use Prim.Native.Nat.{ℕ, suc, ◌+◌, ◌-◌, ◌%◌, ◌^◌, ◌≤◌, ◌<◌}
use mathlib.Core.Path.{◌≡◌, ap, ◌∙◌}
use mathlib.Core.Bool.{Bool}
use native.Mathlib.Omega.{arith}
use maniflex.Prelude.Tests.{ltb, leb, if◌then◌else◌}

-- `negsuc n` is -(n + 1).
pub data ℤ : Type 0 where
  pos negsuc : ℕ → ℤ

abbrev pub pos_part : ℤ → ℕ
pos_part (pos n) = n
pos_part (negsuc n) = 0

abbrev pub neg_part : ℤ → ℕ
neg_part (pos n) = 0
neg_part (negsuc n) = suc n

-- a - b, as an integer.
abbrev pub sub_ℕ : ℕ → ℕ → ℤ
sub_ℕ a b = if leb b a then pos (a - b) else negsuc (b - a - 1)

abbrev pub ltb_ℤ : ℤ → ℤ → Bool
ltb_ℤ a b = ltb (pos_part a + neg_part b) (pos_part b + neg_part a)

-- What an int64 keeps: the integer modulo 2 ^ 64, from -2 ^ 63 on.
abbrev pub of_word : ℕ → ℤ
of_word w = if ltb w (2 ^ 63) then pos w else negsuc (2 ^ 64 - w - 1)

abbrev pub wrap64 : ℤ → ℤ
wrap64 (pos n) = of_word (n % 2 ^ 64)
wrap64 (negsuc n) = of_word (2 ^ 64 - 1 - n % 2 ^ 64)

infixl 65 ◌+ℤ◌ ◌-ℤ◌
infix 50 ◌≤ℤ◌
abbrev pub ◌+ℤ◌ : ℤ → ℤ → ℤ
a +ℤ b = sub_ℕ (pos_part a + pos_part b) (neg_part a + neg_part b)

abbrev pub ◌-ℤ◌ : ℤ → ℤ → ℤ
a -ℤ b = sub_ℕ (pos_part a + neg_part b) (neg_part a + pos_part b)

abbrev pub ◌≤ℤ◌ : ℤ → ℤ → Type 0
a ≤ℤ b = pos_part a + neg_part b ≤ pos_part b + neg_part a

-- The value is one of an int64.
abbrev pub IsInt64 : ℤ → Type 0
IsInt64 a = (pos_part a < 2 ^ 63) × (neg_part a ≤ 2 ^ 63)

pub wrap64_id : (a : ℤ) → IsInt64 a → wrap64 a ≡ a
wrap64_id (pos n) h = ground arith
wrap64_id (negsuc n) h = ground arith

pub wrap64-sub_pos : (a b c : ℕ) → a ≡ c + b → c < 2 ^ 63 → wrap64 (sub_ℕ a b) ≡ pos c
wrap64-sub_pos a b c h k =
    let e : sub_ℕ a b ≡ pos c = (ground arith) in ap wrap64 e ∙ wrap64_id (pos c) (k, omega arith)

pub wrap64-sub_neg : (a b c : ℕ) → b ≡ suc (c + a) → c < 2 ^ 63 → wrap64 (sub_ℕ a b) ≡ negsuc c
wrap64-sub_neg a b c h k =
    let e : sub_ℕ a b ≡ negsuc c = (ground arith) in
    ap wrap64 e ∙ wrap64_id (negsuc c) (omega arith, omega arith)
