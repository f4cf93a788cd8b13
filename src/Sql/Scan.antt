-- ===== src/Sql/Scan.antt =====
-- db/sqlcore/rebind.go: scanSQL and the scanners of the regions that are no code.
--
-- A statement is a list of bytes, and an index of it is where it is split: the bytes before, last first,
-- and the rest. A scanner that returns the index just past a region returns here how many bytes of the
-- rest the region has, the first of them not counted.
use maniflex.Prelude.{
  ℕ, zero, suc, ◌+◌, ◌-◌, Bool, true, false, not, ◌&&◌, ◌||◌, Option, none, some, List, [], ◌∷◌,
  ◌++◌, leb, ◌==◌, if◌then◌else◌, length, take, drop,
}
use maniflex.Prelude.Bytes.{Bytes}

pub record SqlSegment : Type 0 where
  pub text : Bytes
  pub is_code : Bool

unfoldable pub is_ident_byte : ℕ → Bool
is_ident_byte c =
    c == b'_'
    || ((leb b'0' c && leb c b'9') || ((leb b'a' c && leb c b'z') || (leb b'A' c && leb c b'Z')))

-- Whether the quote behind these bytes opens an E'…' literal.
unfoldable pub is_e_string_quote : Bytes → Bool
unfolding is_ident_byte
is_e_string_quote [] = false
is_e_string_quote (e ∷ []) = e == b'E' || e == b'e'
is_e_string_quote (e ∷ p ∷ before) = (e == b'E' || e == b'e') && not (is_ident_byte p)

-- Behind the opening quote. The last byte of the input is taken whatever it is.
unfoldable pub scan_quoted : ℕ → Bool → Bytes → ℕ
scan_quoted quote escapes [] = 0
scan_quoted quote escapes (x ∷ []) = 1
scan_quoted quote escapes (x ∷ y ∷ s) =
    let two = scan_quoted quote escapes s in
    let one = scan_quoted quote escapes (y ∷ s) in
    if escapes && x == b'\\'
    then 2 + two
    else if not (x == quote)
    then 1 + one
    else if y == quote
    then 2 + two
    else 1

-- The newline is left as code.
unfoldable pub scan_line_comment : Bytes → ℕ
scan_line_comment [] = 0
scan_line_comment (x ∷ s) = let more = scan_line_comment s in if x == 10 then 0 else 1 + more

-- Comments nest; `depth` of them are open.
unfoldable pub scan_block_comment : ℕ → Bytes → ℕ
scan_block_comment depth [] = 0
scan_block_comment depth (x ∷ []) = 1
scan_block_comment depth (x ∷ y ∷ s) =
    let opened = scan_block_comment (depth + 1) s in
    let closed = scan_block_comment (depth - 1) s in
    let one = scan_block_comment depth (y ∷ s) in
    if x == b'/' && y == b'*'
    then 2 + opened
    else if x == b'*' && y == b'/'
    then (if depth - 1 == 0 then 2 else 2 + closed)
    else 1 + one

abbrev starts_with : Bytes → Bytes → Bool
starts_with [] s = true
starts_with (p ∷ ps) [] = false
starts_with (p ∷ ps) (c ∷ s) = if p == c then starts_with ps s else false

abbrev later : Option ℕ → Option ℕ
later none = none
later (some k) = some (k + 1)

-- strings.Index, of a tag that is not empty.
unfoldable pub index_of : Bytes → Bytes → Option ℕ
index_of tag [] = none
index_of tag (c ∷ s) =
    let behind = later (index_of tag s) in if starts_with tag (c ∷ s) then some 0 else behind

-- How many identifier bytes stand first.
unfoldable pub ident_length : Bytes → ℕ
unfolding is_ident_byte
ident_length [] = 0
ident_length (c ∷ s) = let more = ident_length s in if is_ident_byte c then 1 + more else 0

abbrev dollar_end : ℕ → Option ℕ → Option ℕ
dollar_end tag none = none
dollar_end tag (some k) = some (tag + 1 + k + (tag + 2))

-- The tag is closed by a dollar at once, and found again.
abbrev dollar_body : ℕ → Bytes → Bytes → Option ℕ
dollar_body tag s [] = none
dollar_body tag s (c ∷ body) =
    if c == b'$' then dollar_end tag (index_of (b'$' ∷ (take tag s ++ (b'$' ∷ []))) body) else none

-- Behind the dollar; none where it opens no dollar-quoted text.
unfoldable pub scan_dollar_quoted : Bytes → Option ℕ
unfolding index_of ident_length
scan_dollar_quoted s = dollar_body (ident_length s) s (drop (ident_length s) s)

abbrev next_is : ℕ → Bytes → Bool
next_is c [] = false
next_is c (x ∷ s) = x == c

-- The switch of the loop: how many bytes behind c belong to the region that it opens, if it does.
unfoldable pub region : Bytes → ℕ → Bytes → Option ℕ
unfolding is_e_string_quote scan_quoted scan_line_comment scan_block_comment scan_dollar_quoted
region before c s =
    if c == b'\''
    then some (scan_quoted b'\'' (is_e_string_quote before) s)
    else if c == b'"'
    then some (scan_quoted b'"' false s)
    else if c == b'-' && next_is b'-' s
    then some (scan_line_comment s)
    else if c == b'/' && next_is b'*' s
    then some (1 + scan_block_comment 1 (drop 1 s))
    else if c == b'$'
    then scan_dollar_quoted s
    else none

-- The bytes of a list, last first, before some others.
unfoldable pub back_onto : Bytes → Bytes → Bytes
back_onto [] ys = ys
back_onto (x ∷ xs) ys = back_onto xs (x ∷ ys)

abbrev pub flush_code : Bytes → List SqlSegment → List SqlSegment
flush_code [] segs = segs
flush_code (c ∷ code) segs = record { text = back_onto (c ∷ code) []; is_code = true } ∷ segs

-- The loop, with the bytes before, the bytes of the code run, both last first, and the rest. The fuel is
-- spent by one for each region or byte of code.
unfoldable pub scan_loop : ℕ → Bytes → Bytes → Bytes → List SqlSegment
unfolding region back_onto
scan_loop zero before code rest = []
scan_loop (suc fuel) before code [] = flush_code code []
scan_loop (suc fuel) before code (c ∷ s) = elim (region before c s) [
  | none ↦ scan_loop fuel (c ∷ before) (c ∷ code) s
  | some n ↦ flush_code code (
      record { text = c ∷ take n s; is_code = false }
      ∷ scan_loop fuel (back_onto (c ∷ take n s) before) [] (drop n s))
]

unfoldable pub scan_sql : Bytes → List SqlSegment
unfolding scan_loop
scan_sql q = scan_loop (length q + 1) [] [] q
