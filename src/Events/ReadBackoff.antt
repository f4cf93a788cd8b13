-- ===== src/Events/ReadBackoff.antt =====
-- events/backoff.go: ReadBackoff. Wait is left out.
--
-- A Duration is its 64-bit pattern: one of 2 ^ 63 and more is a negative duration. A Min or a Max that
-- is negative acts as 0 does, so these are patterns below 2 ^ 63. What rand.Int64N draws is an argument.
use maniflex.Prelude.{
  ℕ, zero, suc, ◌+◌, ◌*◌, ◌/◌, ◌%◌, ◌^◌, ◌≤◌, ◌<◌, ◌≡◌, refl, sym, ap, ◌∙◌, inl, inr, Bool, true,
  false, not, ◌&&◌, ◌||◌, List, [], ◌∷◌, arith, ltb, ◌==◌, if◌then◌else◌, Bool-cases,
}
use maniflex.Jobs.Backoff.{is_negative, capped, double-step, double-grows}

pub record ReadBackoff : Type 0 where
  pub min : ℕ
  pub max : ℕ
  pub n : ℕ
  pub cap_noted : Bool

abbrev pub default_min : ℕ
default_min = 100000000

abbrev pub default_max : ℕ
default_max = 30000000000

-- d < max, for a max that is not negative.
abbrev pub less : ℕ → ℕ → Bool
less d max = is_negative d || ltb d max

abbrev pub min_delay : ReadBackoff → ℕ
min_delay b = if b.min == 0 then default_min else b.min

abbrev pub max_delay : ReadBackoff → ℕ
max_delay b =
    let m = if b.max == 0 then default_max else b.max in
    if ltb m (min_delay b) then min_delay b else m

-- The loop of Next, with the turns that are left.
unfoldable pub double_loop : ℕ → ℕ → ℕ → ℕ
double_loop zero max d = d
double_loop (suc turns) max d =
    let more = double_loop turns max (d * 2 % 18446744073709551616) in
    if less d max then more else d

-- half + rand.Int64N(half), where half > 0; half of a negative duration is not.
abbrev pub jitter : ℕ → ℕ → ℕ
jitter draw d = if not (is_negative d) && ltb 0 (d / 2) then d / 2 + draw else d

-- Next, which leaves the backoff and returns the attempt, the delay and whether to escalate.
unfoldable pub next : ℕ → ReadBackoff → ReadBackoff × ℕ × ℕ × Bool
unfolding double_loop
next draw b =
    let d = double_loop b.n (max_delay b) (min_delay b) in
    let at_cap = not (less d (max_delay b)) in
    let d' = if at_cap then max_delay b else d in
    let escalate = at_cap && not b.cap_noted in
    (
      record b { n = b.n + 1; cap_noted = b.cap_noted || escalate },
      b.n + 1,
      jitter draw d',
      escalate,
    )

unfoldable pub reset : ReadBackoff → ReadBackoff
reset b = record b { n = 0; cap_noted = false }

-- Without a wrap, the loop stops at the first doubling that reaches the cap.
pub double_loop-capped :
    (turns max d : ℕ)
    → max ≤ 4611686018427387904
    → d < 9223372036854775808
    → (capped (double_loop turns max d) max ≡ capped (d * 2 ^ turns) max)
      × (double_loop turns max d < 9223372036854775808)
unfolding double_loop
double_loop-capped zero max d bound fits = (ap (λ x. capped x max) (omega arith), fits)
double_loop-capped (suc turns) max d bound fits = elim (Bool-cases (less d max)) [
  | inl below ↦
      let lt : d < max = ground arith in
      let no_wrap : d * 2 % 18446744073709551616 ≡ d * 2 = omega arith in
      let (same, small) = double_loop-capped turns max (d * 2) bound (omega arith) in
      rw (below, no_wrap) (same ∙ ap (λ x. capped x max) (sym (double-step turns d)), small)
  | inr above ↦ rw above (ground (arith, double-step turns d, double-grows turns (d * 2)), fits)
]

pub at_cap-capped :
    (max d : ℕ) → d < 9223372036854775808 → (if not (less d max) then max else d) ≡ capped d max
at_cap-capped max d fits = ground arith

-- The backoff after a run of failures, each with its draw.
abbrev pub after_failures : List ℕ → ReadBackoff → ReadBackoff
after_failures [] b = b
after_failures (draw ∷ draws) b = after_failures draws (next draw b).0

-- What a run of failures changes, and what it leaves.
record Failed (b after : ReadBackoff) (failures : ℕ) : Type 0 where
  counts : after.n ≡ b.n + failures
  min_left : min_delay after ≡ min_delay b
  max_left : max_delay after ≡ max_delay b

-- A run of failures: Next for each draw, and whether each call escalated.
unfoldable pub escalations : List ℕ → ReadBackoff → ℕ
unfolding next
escalations [] b = 0
escalations (draw ∷ draws) b =
    let (b', attempt, delay, escalate) = next draw b in
    (if escalate then 1 else 0) + escalations draws b'

abbrev pub once_if : Bool → ℕ
once_if b = if b then 1 else 0

pub noted-silent : (draws : List ℕ) (b : ReadBackoff) → b.cap_noted ≡ true → escalations draws b ≡ 0
unfolding escalations next
noted-silent [] b noted = refl
noted-silent (draw ∷ draws) b noted =
    let quiet : (next draw b).3 ≡ false = ground arith in
    let still : (next draw b).0.cap_noted ≡ true = ground arith in
    omega (arith, ap once_if quiet, noted-silent draws (next draw b).0 still)

-- A run of failures without a Reset escalates at most once, however long it is.
pub escalates_once : (draws : List ℕ) (b : ReadBackoff) → escalations draws b ≤ 1
unfolding escalations next
escalates_once [] b = omega arith
escalates_once (draw ∷ draws) b = elim (Bool-cases (next draw b).3) [
  | inl loud ↦
      let noted : (next draw b).0.cap_noted ≡ true = ground arith in
      omega (arith, ap once_if loud, noted-silent draws (next draw b).0 noted)
  | inr quiet ↦ omega (arith, ap once_if quiet, escalates_once draws (next draw b).0)
]
