-- ===== src/Jobs/Backoff.antt =====
-- jobs/backoff.go: ExponentialBackoff, BackoffFor and FixedBackoff.
--
-- A Duration is its 64-bit pattern, a number below 2 ^ 64: one of 2 ^ 63 and more is a negative
-- duration, and a doubling wraps. A Base, a Max or an attempt that is negative acts as 0 does, so
-- these are numbers from 0 on.
use maniflex.Prelude.{
  ℕ, zero, suc, ◌*◌, ◌/◌, ◌%◌, ◌^◌, ◌≤◌, ◌≡◌, sym, ap, ◌∙◌, inl, inr, none, some, arith, ltb, leb,
  ◌<◌, Bool, not, ◌&&◌, ◌==◌, if◌then◌else◌, Bool-cases,
}
use maniflex.Jobs.Job.{Job}
use native.Mathlib.Nat.{pow-succ', mul_assoc}

abbrev pub max_int64 : ℕ
max_int64 = 9223372036854775807

abbrev pub second : ℕ
second = 1000000000

pub record ExponentialBackoff : Type 0 where
  pub base : ℕ
  pub max : ℕ

-- d *= 2
abbrev pub doubled : ℕ → ℕ
doubled d = d * 2 % 18446744073709551616

abbrev pub is_negative : ℕ → Bool
is_negative d = leb 9223372036854775808 d

-- d > m, for an m that is not negative.
abbrev pub greater : ℕ → ℕ → Bool
greater d m = not (is_negative d) && ltb m d

-- The loop of Next, with the turns that are left, and the test behind it.
unfoldable pub double_loop : ℕ → ℕ → ℕ → ℕ
double_loop zero ceiling d = if greater d ceiling then ceiling else d
double_loop (suc attempt) ceiling d =
    let more = double_loop attempt ceiling (doubled d) in
    if greater d (ceiling / 2) then ceiling else more

-- The effective base and ceiling.
abbrev pub base_of : ExponentialBackoff → ℕ
base_of e = if e.base == 0 then second else e.base

abbrev pub ceiling_of : ExponentialBackoff → ℕ
ceiling_of e = if e.max == 0 then max_int64 else e.max

unfoldable pub next : ExponentialBackoff → ℕ → ℕ
unfolding double_loop
next e attempt = double_loop attempt (ceiling_of e) (base_of e)

abbrev pub default_backoff : ExponentialBackoff
default_backoff = record { base = second; max = 300000000000 }

unfoldable pub backoff_for : Job → ℕ → ℕ
unfolding next
backoff_for j = elim j.backoff [ none ↦ next default_backoff | some policy ↦ policy ]

-- FixedBackoff.Next, for its Delay.
abbrev pub fixed_backoff : ℕ → ℕ → ℕ
fixed_backoff delay attempt = delay

-- The smaller of a delay and the ceiling.
abbrev pub capped : ℕ → ℕ → ℕ
capped d ceiling = if ltb ceiling d then ceiling else d

pub double-step : (n d : ℕ) → d * 2 ^ suc n ≡ d * 2 * 2 ^ n
double-step n d = ap (λ p. d * p) (pow-succ' 2 n) ∙ sym (mul_assoc d 2 (2 ^ n))

pub double-grows : (n d : ℕ) → d ≤ d * 2 ^ n
double-grows zero d = omega arith
double-grows (suc n) d = omega (arith, double-grows n (d * 2), double-step n d)

-- A loop below the ceiling doubles without a wrap, and stops at the ceiling.
pub double_loop-capped :
    (attempt ceiling d : ℕ)
    → ceiling ≤ max_int64
    → d ≤ max_int64
    → double_loop attempt ceiling d ≡ capped (d * 2 ^ attempt) ceiling
unfolding double_loop
double_loop-capped zero ceiling d bound fits =
    let same : d * 2 ^ 0 ≡ d = omega arith in rw same (ground arith)
double_loop-capped (suc n) ceiling d bound fits = elim (Bool-cases (greater d (ceiling / 2))) [
  | inl past ↦
      let over : ceiling < d * 2 = ground arith in
      rw past (ground (arith, over, double-grows n (d * 2), double-step n d))
  | inr below ↦
      let no_wrap : doubled d ≡ d * 2 = ground (arith, below) in
      rw (below, no_wrap)
        (double_loop-capped n ceiling (d * 2) bound (ground (arith, below))
          ∙ ap (λ x. capped x ceiling) (sym (double-step n d)))
]
