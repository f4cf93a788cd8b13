-- ===== src/Files/ByteRange.antt =====
-- file_range.go: byteRange, parseByteRange, suffixByteRange, offsetByteRange.
--
-- A header is a text of ASCII bytes. The pair of a flag and an error that the functions return with the
-- range is one of three outcomes. Once a number is known not to be negative it is a native number: all
-- of them are below 2 ^ 63, and so are the sums.
use maniflex.Prelude.{
  ℕ, zero, suc, ◌+◌, ◌-◌, Option, none, some, ◌∷◌, ◌++◌, ltb, leb, ◌==◌, if◌then◌else◌, any, ◌||◌,
}
use maniflex.Prelude.Int.{ℤ, pos, negsuc}
use maniflex.Prelude.Bytes.{Bytes, codes, is_empty, format_uint, parse_int, trim, cut, cut_prefix}

pub record ByteRange : Type 0 where
  pub start : ℕ
  pub length : ℕ
  pub total : ℕ

unfoldable pub content_range : ByteRange → Bytes
content_range br =
    codes "bytes "
    ++ (format_uint br.start
        ++ (b'-' ∷ (format_uint (br.start + br.length - 1) ++ (b'/' ∷ format_uint br.total))))

-- No usable range, so the whole object; errRangeUnsatisfiable; a window.
pub data Resolved : Type 0 where
  serve_whole unsatisfiable : Resolved
  window : ByteRange → Resolved

abbrev pub suffix_of : Option ℤ → ℕ → Resolved
suffix_of none size = serve_whole
suffix_of (some (negsuc n)) size = serve_whole
suffix_of (some (pos n)) size =
    if n == 0
    then unsatisfiable
    else let n' = if ltb size n then size else n in
      window (record { start = size - n'; length = n'; total = size })

unfoldable pub suffix_byte_range : Bytes → ℕ → Resolved
suffix_byte_range last size = suffix_of (parse_int last) size

abbrev pub window_to : ℕ → ℕ → ℕ → Resolved
window_to start end size = window (record { start = start; length = end - start + 1; total = size })

-- The end that the header gives.
abbrev pub offset_to : ℕ → Option ℤ → ℕ → Resolved
offset_to start none size = serve_whole
offset_to start (some (negsuc n)) size = serve_whole
offset_to start (some (pos end)) size =
    if ltb end start
    then serve_whole
    else window_to start (if ltb (size - 1) end then size - 1 else end) size

abbrev pub offset_from : Option ℤ → Bytes → ℕ → Resolved
offset_from none last size = serve_whole
offset_from (some (negsuc n)) last size = serve_whole
offset_from (some (pos start)) last size =
    if leb size start
    then unsatisfiable
    else if is_empty last
    then window_to start (size - 1) size
    else offset_to start (parse_int last) size

unfoldable pub offset_byte_range : Bytes → Bytes → ℕ → Resolved
offset_byte_range first last size = offset_from (parse_int first) last size

abbrev pub resolve_cut : Option (Bytes × Bytes) → ℕ → Resolved
resolve_cut none size = serve_whole
resolve_cut (some (first, last)) size =
    let first' = trim first in
    let last' = trim last in
    if is_empty first' then suffix_byte_range last' size else offset_byte_range first' last' size

abbrev pub resolve_spec : Option Bytes → ℕ → Resolved
resolve_spec none size = serve_whole
resolve_spec (some s) size =
    let spec = trim s in
    if is_empty spec || any (λ c. c == b',') spec
    then serve_whole
    else resolve_cut (cut b'-' spec) size

-- An object of unknown size has a size of 0 or less.
unfoldable pub parse_byte_range : Bytes → ℤ → Resolved
unfolding suffix_byte_range offset_byte_range
parse_byte_range hdr (negsuc n) = serve_whole
parse_byte_range hdr (pos zero) = serve_whole
parse_byte_range hdr (pos (suc n)) = resolve_spec (cut_prefix (codes "bytes=") (trim hdr)) (suc n)
