-- ===== src/Files/Honest.antt =====
-- file_range.go: what a download is, against the object that the backend holds.
use maniflex.Prelude.{
  ℕ, zero, suc, ◌+◌, ◌-◌, ◌^◌, ◌≤◌, ◌<◌, ◌≡◌, refl, ap, ◌∙◌, String, false, [], ◌∷◌, ◌++◌, ltb, leb,
  if◌then◌else◌, length, take, drop, arith,
}
use maniflex.Prelude.Int.{pos}
use maniflex.Prelude.Bytes.{Bytes, codes, format_uint}
use maniflex.Files.ByteRange.{
  ByteRange, content_range, Resolved, serve_whole, unsatisfiable, window, parse_byte_range,
}
use maniflex.Files.Window.{Fits, parse_byte_range-Fits, range_header, parse-closed_range}
use maniflex.Files.Serve.{
  FileMeta, Answer, found, Reader, FileStorage, Reply, whole, serve_content, partial, range_refused,
  serve_error, fill_meta, write_partial, serve_resolved, serve_backend_range,
}

-- What the documentation of the interfaces asks of a backend, for a key that holds an object.
pub record Holds (store : FileStorage) (fetch : String → ℕ → ℕ → Answer (FileMeta × Bytes))
    (key : String) (obj : Bytes) : Type 0 where
  pub meta : FileMeta
  pub sized : meta.size ≡ pos (length obj)
  pub stats : store.stat key ≡ found meta
  pub reader : Reader
  pub retrieves : store.retrieve key ≡ found (meta, reader)
  pub opens : reader.content ≡ obj
  pub part : FileMeta
  pub fetches :
      (start n : ℕ)
      → start + n ≤ length obj
      → fetch key start n ≡ found (part, take n (drop start obj))

-- The Content-Range of the bytes from the first to the last.
abbrev pub range_text : ℕ → ℕ → ℕ → Bytes
range_text first last total =
    codes "bytes "
    ++ (format_uint first ++ (b'-' ∷ (format_uint last ++ (b'/' ∷ format_uint total))))

-- A reply that tells the truth about the object.
abbrev pub IsHonest : Bytes → Reply → Type 0
IsHonest obj (whole meta body) = body ≡ obj
IsHonest obj (serve_content meta body hdr) = body ≡ obj
IsHonest obj (partial meta range size body) =
    (start : ℕ) × (body ≡ take (length body) (drop start obj))
    × (0 < length body)
    × (size ≡ format_uint (length body))
    × (range ≡ range_text start (start + length body - 1) (length obj))
IsHonest obj (range_refused range) = range ≡ codes "bytes */" ++ format_uint (length obj)
IsHonest obj (serve_error status code) = ⊥

length-slice :
    (n start : ℕ) (obj : Bytes) → start + n ≤ length obj → length (take n (drop start obj)) ≡ n
length-slice zero zero obj h = refl
length-slice (suc n) zero [] h = absurd (omega arith)
length-slice (suc n) zero (x ∷ obj) h = ap suc (length-slice n zero obj (omega arith))
length-slice n (suc start) [] h = absurd (omega arith)
length-slice n (suc start) (x ∷ obj) h = length-slice n start obj (omega arith)

closed_window :
    (start end size : ℕ)
    → start < size
    → start ≤ end
    → start < 2 ^ 63
    → end < 2 ^ 63
    → parse_byte_range (range_header start (format_uint end)) (pos size)
      ≡ window (record {
        start = start;
        length = (if ltb end size then end else size - 1) - start + 1;
        total = size;
      })
closed_window start end zero ho hse hs he = absurd (omega arith)
closed_window start end (suc n) ho hse hs he =
    let within : leb (suc n) start ≡ false = ground arith in
    let forward : ltb end start ≡ false = ground arith in
    let same : (if ltb n end then n else end) - start + 1
        ≡ (if ltb end (suc n) then end else suc n - 1) - start + 1 =
      ground arith in
    parse-closed_range start end n hs he ∙ rw (within, forward) (rw same)

module _ (store : FileStorage) (fetch : String → ℕ → ℕ → Answer (FileMeta × Bytes)) (key : String)
    (obj : Bytes) (h : Holds store fetch key obj) where
  write_partial-IsHonest :
      (stat : FileMeta) (br : ByteRange)
      → Fits (length obj) (window br)
      → IsHonest obj (write_partial stat br (fetch key br.start br.length))
  unfolding content_range
  write_partial-IsHonest stat br (some_bytes, within, same) =
      let inside : br.start + br.length ≤ length obj = omega arith in
      let exact = length-slice br.length br.start obj inside in
      rw (h.fetches br.start br.length inside) (
        rw exact (
          br.start,
          refl,
          some_bytes,
          refl,
          ap (range_text br.start (br.start + br.length - 1)) same,
        ))

  serve_resolved-IsHonest :
      (r : Resolved) → Fits (length obj) r → IsHonest obj (serve_resolved store fetch key h.meta r)
  serve_resolved-IsHonest serve_whole fits = rw h.retrieves h.opens
  serve_resolved-IsHonest unsatisfiable fits = rw h.sized
  serve_resolved-IsHonest (window br) fits = write_partial-IsHonest h.meta br fits

  -- Whatever Range header is sent, a backend that keeps its documented promises has a reply that is
  -- true of the object: the whole of it, or a 416 that names its size, or a slice that is not empty,
  -- under a Content-Range and a Content-Length that say which slice it is. The request does not fail.
  pub serve_backend_range-IsHonest :
      (hdr : Bytes) → IsHonest obj (serve_backend_range store fetch key hdr)
  unfolding serve_backend_range
  serve_backend_range-IsHonest hdr = rw h.stats (
      serve_resolved-IsHonest (parse_byte_range hdr h.meta.size)
        (rw h.sized (parse_byte_range-Fits hdr (length obj))))

  -- A request for the bytes from S to E of an object that has a byte S is answered by those from S to E
  -- or to the last one, as partial content, under headers that say so. S and E are numbers of an int64.
  pub serve_backend_range-closed :
      (start end : ℕ)
      → start < length obj
      → start ≤ end
      → start < 2 ^ 63
      → end < 2 ^ 63
      → let last = if ltb end (length obj) then end else length obj - 1 in
        let n = last - start + 1 in
        serve_backend_range store fetch key (range_header start (format_uint end))
        ≡ partial
            (fill_meta h.part h.meta)
            (range_text start last (length obj))
            (format_uint n)
            (take n (drop start obj))
  unfolding serve_backend_range content_range
  serve_backend_range-closed start end ho hse hs he =
      let last = if ltb end (length obj) then end else length obj - 1 in
      let n = last - start + 1 in
      let inside : start + n ≤ length obj = ground arith in
      let ends : start + n - 1 ≡ last = ground arith in
      rw h.stats (
        rw h.sized (
          rw (closed_window start end (length obj) ho hse hs he)
            (rw (h.fetches start n inside) (rw ends))))
