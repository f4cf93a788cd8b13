-- ===== src/Files/Window.antt =====
-- file_range.go: which window a Range header stands for.
use maniflex.Prelude.{
  ℕ, zero, suc, ◌+◌, ◌-◌, ◌^◌, ◌≤◌, ◌<◌, ◌≡◌, refl, ◌≢◌, ◌∙◌, Bool, true, false, Option, none, some,
  [], ◌∷◌, ◌++◌, ltb, leb, ◌==◌, if◌then◌else◌, any, ◌||◌, All, All-map, All-append, arith,
}
use maniflex.Prelude.Int.{ℤ, pos, negsuc}
use maniflex.Prelude.Bytes.{
  Bytes, codes, is_empty, is_space, format_uint, parse_int, trim, cut, cut_prefix, IsDigit, trim-id,
  cut-append, parse_int-format_uint, format_uint-IsDigit, format_uint-not_empty,
}
use maniflex.Files.ByteRange.{
  Resolved, serve_whole, unsatisfiable, window, suffix_of, window_to, offset_to, offset_from,
  resolve_cut, resolve_spec, parse_byte_range, suffix_byte_range, offset_byte_range,
}

-- A window that lies within its object, and holds a byte at least.
abbrev pub Fits : ℕ → Resolved → Type 0
Fits size serve_whole = Unit
Fits size unsatisfiable = Unit
Fits size (window br) = (0 < br.length) × (br.start + br.length ≤ br.total) × (br.total ≡ size)

Fits-if :
    (size : ℕ) (b : Bool) (r s : Resolved)
    → (b ≡ true → Fits size r)
    → (b ≡ false → Fits size s)
    → Fits size (if b then r else s)
Fits-if size true r s h k = h refl
Fits-if size false r s h k = k refl

suffix_of-Fits : (n : Option ℤ) (size : ℕ) → 0 < size → Fits size (suffix_of n size)
suffix_of-Fits none size h = tt
suffix_of-Fits (some (negsuc n)) size h = tt
suffix_of-Fits (some (pos n)) size h =
    Fits-if size (n == 0) _ _ (λ e. tt) (λ e. (ground arith, ground arith, refl))

window_to-Fits :
    (start end size : ℕ) → start ≤ end → end < size → Fits size (window_to start end size)
window_to-Fits start end size h k = (omega arith, omega arith, refl)

offset_to-Fits :
    (start : ℕ) (end : Option ℤ) (size : ℕ) → start < size → Fits size (offset_to start end size)
offset_to-Fits start none size h = tt
offset_to-Fits start (some (negsuc n)) size h = tt
offset_to-Fits start (some (pos end)) size h =
    Fits-if size (ltb end start) _ _ (λ e. tt)
      (λ e. window_to-Fits start _ size (ground arith) (ground arith))

offset_from-Fits :
    (start : Option ℤ) (last : Bytes) (size : ℕ)
    → 0 < size
    → Fits size (offset_from start last size)
offset_from-Fits none last size h = tt
offset_from-Fits (some (negsuc n)) last size h = tt
offset_from-Fits (some (pos start)) last size h =
    Fits-if size (leb size start) _ _ (λ e. tt)
      (λ e.
        Fits-if size (is_empty last) _ _
          (λ _. window_to-Fits start (size - 1) size (ground arith) (ground arith))
          (λ _. offset_to-Fits start (parse_int last) size (ground arith)))

resolve_cut-Fits :
    (parts : Option (Bytes × Bytes)) (size : ℕ) → 0 < size → Fits size (resolve_cut parts size)
unfolding suffix_byte_range offset_byte_range
resolve_cut-Fits none size h = tt
resolve_cut-Fits (some (first, last)) size h =
    Fits-if size (is_empty (trim first)) _ _ (λ _. suffix_of-Fits (parse_int (trim last)) size h)
      (λ _. offset_from-Fits (parse_int (trim first)) (trim last) size h)

resolve_spec-Fits : (spec : Option Bytes) (size : ℕ) → 0 < size → Fits size (resolve_spec spec size)
resolve_spec-Fits none size h = tt
resolve_spec-Fits (some s) size h =
    Fits-if size (is_empty (trim s) || any (λ c. c == b',') (trim s)) _ _ (λ _. tt)
      (λ _. resolve_cut-Fits (cut b'-' (trim s)) size h)

-- Whatever the header says, a window that it resolves to lies within the object and holds a byte of it
-- at least: no read goes past the end, and no response is empty.
pub parse_byte_range-Fits : (hdr : Bytes) (size : ℕ) → Fits size (parse_byte_range hdr (pos size))
unfolding parse_byte_range
parse_byte_range-Fits hdr zero = tt
parse_byte_range-Fits hdr (suc n) =
    resolve_spec-Fits (cut_prefix (codes "bytes=") (trim hdr)) (suc n) (omega arith)

-- The header that asks for the bytes from S to E, or from S on.
abbrev pub range_header : ℕ → Bytes → Bytes
range_header start last = codes "bytes=" ++ (format_uint start ++ (b'-' ∷ last))

-- The bytes of such a header: no space and no comma.
abbrev Plain : ℕ → Type 0
Plain c = (45 ≤ c) × (c ≤ 122)

Plain-space : (c : ℕ) → Plain c → is_space c ≡ false
Plain-space c h = ground arith

trim-Plain : (s : Bytes) → All Plain s → trim s ≡ s
trim-Plain s h = trim-id s (All-map Plain-space s h)

trim-digits : (s : Bytes) → All IsDigit s → trim s ≡ s
trim-digits s h = trim-id s (All-map {P = IsDigit} (λ c d. ground arith) s h)

no_comma : (s : Bytes) → All Plain s → any (λ c. c == b',') s ≡ false
no_comma [] h = refl
no_comma (c ∷ s) h = ground (arith, no_comma s h.1)

is_empty-append : (a b : Bytes) (c : ℕ) → is_empty (a ++ (c ∷ b)) ≡ false
is_empty-append [] b c = refl
is_empty-append (x ∷ a) b c = refl

digits-Plain : (s : Bytes) → All IsDigit s → All Plain s
digits-Plain s h = All-map {P = IsDigit} (λ c d. (omega arith, omega arith)) s h

spec-Plain :
    (start : ℕ) (last : Bytes) → All IsDigit last → All Plain (format_uint start ++ (b'-' ∷ last))
spec-Plain start last h =
    All-append Plain (format_uint start) _ (digits-Plain _ (format_uint-IsDigit start))
      ((omega arith, omega arith), digits-Plain last h)

-- What a header in that form is resolved by.
parse-range_header :
    (start : ℕ) (last : Bytes) (n : ℕ)
    → All IsDigit last
    → start < 2 ^ 63
    → parse_byte_range (range_header start last) (pos (suc n))
      ≡ offset_from (some (pos start)) last (suc n)
unfolding parse_byte_range suffix_byte_range offset_byte_range
parse-range_header start last n hl h =
    let digits = format_uint start in
    let spec = digits ++ (b'-' ∷ last) in
    let plain = spec-Plain start last hl in
    let whole : trim (range_header start last) ≡ range_header start last =
      trim-Plain (range_header start last)
        (All-append Plain (codes "bytes=") spec (omega arith) plain) in
    let no_minus =
      All-map {Q = λ x. x ≢ b'-'} (λ x d e. absurd (omega arith)) digits
        (format_uint-IsDigit start) in
    rw whole (
      rw (trim-Plain spec plain) (
        rw (is_empty-append digits last b'-', no_comma spec plain)
          (rw (cut-append b'-' digits last no_minus) (
            rw (trim-digits digits (format_uint-IsDigit start), trim-digits last hl)
              (rw (format_uint-not_empty start, parse_int-format_uint start h))))))

-- The header that asks for the bytes from S to E is answered by exactly those that the object has: it
-- cannot be satisfied exactly when S is not below the size, is ignored when E is below S, and else gives
-- the window from S to E or to the last byte. The numbers are of an int64, the object has a byte.
pub parse-closed_range :
    (start end n : ℕ)
    → start < 2 ^ 63
    → end < 2 ^ 63
    → parse_byte_range (range_header start (format_uint end)) (pos (suc n)) ≡ (
        if leb (suc n) start
        then unsatisfiable
        else if ltb end start
        then serve_whole
        else window (record {
          start = start;
          length = (if ltb n end then n else end) - start + 1;
          total = suc n;
        }))
parse-closed_range start end n h k =
    parse-range_header start (format_uint end) n (format_uint-IsDigit end) h
    ∙ rw (format_uint-not_empty end, parse_int-format_uint end k) (ground arith)

-- The header that asks for all bytes from S on.
pub parse-open_range :
    (start n : ℕ)
    → start < 2 ^ 63
    → parse_byte_range (range_header start []) (pos (suc n)) ≡ (
        if leb (suc n) start
        then unsatisfiable
        else window (record { start = start; length = suc n - start; total = suc n }))
parse-open_range start n h = parse-range_header start [] n tt h ∙ (ground arith)
