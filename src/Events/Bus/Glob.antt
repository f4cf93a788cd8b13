-- ===== src/Events/Bus/Glob.antt =====
-- events/inproc/inproc.go: matchesAny, and path.Match of Go's library, which it calls.
--
-- Patterns and types are texts of ASCII bytes. A malformed pattern is an error of path.Match, which
-- matchesAny takes for no match. path.Match takes the first way to match behind a star and goes by no
-- other, which makes a difference only for patterns with a class that takes the slash: they are left out.
use maniflex.Prelude.{
  ℕ, zero, suc, ◌+◌, Bool, true, false, not, ◌&&◌, ◌||◌, Option, none, some, List, [], ◌∷◌, leb,
  ◌==◌, if◌then◌else◌, length, any,
}
use maniflex.Prelude.Bytes.{Bytes}

-- A bound of a range of a class, which may be escaped and is never the last byte of the pattern.
abbrev bound : ℕ → Bytes → Option (ℕ × Bytes)
bound c [] = none
bound c (d ∷ p) = some (c, d ∷ p)

abbrev escaped : Bytes → Option (ℕ × Bytes)
escaped [] = none
escaped (c ∷ p) = bound c p

abbrev get_esc : Bytes → Option (ℕ × Bytes)
get_esc [] = none
get_esc (c ∷ p) =
    if c == b'-' || c == b']' then none else if c == b'\\' then escaped p else bound c p

-- The range from lo on: whether r is in it, and the pattern behind it.
abbrev up_to : ℕ → ℕ → Option (ℕ × Bytes) → Option (Bool × Bytes)
up_to r lo none = none
up_to r lo (some (hi, p)) = some (leb lo r && leb r hi, p)

abbrev range_from : ℕ → Option (ℕ × Bytes) → Option (Bool × Bytes)
range_from r none = none
range_from r (some (lo, [])) = none
range_from r (some (lo, c ∷ p)) =
    if c == b'-' then up_to r lo (get_esc p) else some (leb lo r && leb r lo, c ∷ p)

-- The ranges of a class up to its closing bracket; at least one comes first.
unfoldable pub class_of : ℕ → ℕ → Bool → Bool → Bytes → Option (Bool × Bytes)
class_of zero r some_range found p = none
class_of (suc fuel) r some_range found [] = none
class_of (suc fuel) r some_range found (c ∷ p) =
    if c == b']' && some_range then some (found, p) else elim (range_from r (get_esc (c ∷ p))) [
      | none ↦ none
      | some (inside, q) ↦ class_of fuel r true (found || inside) q
    ]

-- Behind the opening bracket: whether the class takes r, and the pattern behind it.
abbrev inverted : Option (Bool × Bytes) → Option (Bool × Bytes)
inverted none = none
inverted (some (found, p)) = some (not found, p)

unfoldable pub class : ℕ → Bytes → Option (Bool × Bytes)
unfolding class_of
class r [] = none
class r (c ∷ p) =
    if c == b'^'
    then inverted (class_of (suc (length p)) r false false p)
    else class_of (suc (suc (length p))) r false false (c ∷ p)

-- path.Match, with a round for each byte of the two texts.
unfoldable pub glob : ℕ → Bytes → Bytes → Bool
unfolding class
glob zero p s = false
glob (suc fuel) [] [] = true
glob (suc fuel) [] (x ∷ s) = false
glob (suc fuel) (c ∷ p) [] = if c == b'*' then glob fuel p [] else false
glob (suc fuel) (c ∷ p) (x ∷ s) =
    let here = glob fuel p (x ∷ s) in
    let longer = glob fuel (c ∷ p) s in
    let next = glob fuel p s in
    if c == b'*'
    then here || (not (x == b'/') && longer)
    else if c == b'?'
    then not (x == b'/') && next
    else if c == b'['
    then elim (class x p) [ none ↦ false | some (takes, q) ↦ takes && glob fuel q s ]
    else if c == b'\\'
    then elim p [ [] ↦ false | ◌∷◌ d q ↦ d == x && glob fuel q s ]
    else c == x && next

unfoldable pub path_match : Bytes → Bytes → Bool
unfolding glob
path_match p s = glob (suc (length p + length s)) p s

abbrev is_star : Bytes → Bool
is_star (c ∷ []) = c == b'*'
is_star _ = false

unfoldable pub matches_any : List Bytes → Bytes → Bool
unfolding path_match
matches_any patterns s = any (λ p. is_star p || path_match p s) patterns
