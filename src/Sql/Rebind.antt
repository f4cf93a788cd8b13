-- ===== src/Sql/Rebind.antt =====
-- db/sqlcore/rebind.go: rebind and stripLiteralsAndComments.
use maniflex.Prelude.{
  ℕ, ◌+◌, Bool, true, false, not, ◌||◌, List, [], ◌∷◌, ◌++◌, ◌==◌, any, if◌then◌else◌,
}
use maniflex.Prelude.Bytes.{Bytes, format_uint}
use maniflex.Sql.Scan.{SqlSegment, scan_sql}

pub data DriverType : Type 0 where
  sqlite postgres : DriverType

abbrev pub is_postgres : DriverType → Bool
is_postgres postgres = true
is_postgres sqlite = false

-- The next byte of the segment makes the mark a jsonb operator.
abbrev pub is_operator : Bytes → Bool
is_operator [] = false
is_operator (c ∷ s) = c == b'|' || c == b'&'

-- The number that a placeholder is written as, or the mark itself.
abbrev pub mark : ℕ → Bytes → Bytes
mark n s = if is_operator s then b'?' ∷ [] else b'$' ∷ format_uint (n + 1)

abbrev pub counted : ℕ → Bytes → ℕ
counted n s = if is_operator s then n else n + 1

-- One segment of code, with how many placeholders came before it and what is written so far left out.
unfoldable pub rebind_code : ℕ → Bytes → Bytes × ℕ
rebind_code n [] = ([], n)
rebind_code n (c ∷ s) =
    let (out, m) = rebind_code (if c == b'?' then counted n s else n) s in
    ((if c == b'?' then mark n s else c ∷ []) ++ out, m)

unfoldable pub rebind_segments : ℕ → List SqlSegment → Bytes
unfolding rebind_code
rebind_segments n [] = []
rebind_segments n (seg ∷ segs) =
    let (out, m) = rebind_code n seg.text in
    let as_code = out ++ rebind_segments m segs in
    let as_text = seg.text ++ rebind_segments n segs in if not seg.is_code then as_text else as_code

unfoldable pub rebind : DriverType → Bytes → Bytes
unfolding rebind_segments scan_sql
rebind driver query =
    if not (is_postgres driver) || not (any (λ c. c == b'?') query)
    then query
    else rebind_segments 0 (scan_sql query)

unfoldable pub strip_segments : List SqlSegment → Bytes
strip_segments [] = []
strip_segments (seg ∷ segs) = (if seg.is_code then seg.text else b' ' ∷ []) ++ strip_segments segs

unfoldable pub strip_literals_and_comments : Bytes → Bytes
unfolding strip_segments scan_sql
strip_literals_and_comments q = strip_segments (scan_sql q)
