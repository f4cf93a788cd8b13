-- ===== src/Examples/FileRuns.antt =====
-- file_range.go on an object of five bytes.
use maniflex.Prelude.{ℕ, ◌≡◌, refl, String, false, some, take, drop, arith}
use maniflex.Prelude.Int.{pos}
use maniflex.Prelude.Bytes.{Bytes, codes, format_uint, parse_int, trim, cut}
use maniflex.Files.ByteRange.{
  content_range, serve_whole, unsatisfiable, window, parse_byte_range, suffix_byte_range,
  offset_byte_range,
}
use maniflex.Files.Serve.{
  FileMeta, Answer, found, Reader, FileStorage, partial, serve_backend_range,
}
use maniflex.Files.Window.{range_header}
use maniflex.Files.Honest.{
  Holds, range_text, IsHonest, serve_backend_range-IsHonest, serve_backend_range-closed,
}

abbrev object : Bytes
object = codes "hello"

abbrev text_meta : FileMeta
text_meta = record { content_type = "text/plain"; size = pos 5; filename = "a.txt" }

abbrev reader : Reader
reader = record { seekable = false; content = object }

abbrev fetch : String → ℕ → ℕ → Answer (FileMeta × Bytes)
fetch key start n = found (text_meta, take n (drop start object))

abbrev storage : FileStorage
storage = record {
  stat = λ key. found text_meta;
  retrieve = λ key. found (text_meta, reader);
  retrieve_range = some fetch;
}

abbrev object_held : Holds storage fetch "k" object
object_held = record {
  meta = text_meta;
  sized = refl;
  stats = refl;
  reader = reader;
  retrieves = refl;
  opens = refl;
  part = text_meta;
  fetches = λ start n h. refl;
}

-- A suffix that is longer than the object is the whole of it.
long_suffix :
    parse_byte_range (codes " bytes= -9 ") (pos 5)
    ≡ window (record { start = 0; length = 5; total = 5 })
unfolding parse_byte_range trim cut suffix_byte_range parse_int
long_suffix = refl

no_bytes : parse_byte_range (codes "bytes=-0") (pos 5) ≡ unsatisfiable
unfolding parse_byte_range trim cut suffix_byte_range parse_int
no_bytes = refl

two_ranges : parse_byte_range (codes "bytes=0-1,3-4") (pos 5) ≡ serve_whole
unfolding parse_byte_range trim cut
two_ranges = refl

middle :
    serve_backend_range storage fetch "k" (codes "bytes=1-2")
    ≡ partial text_meta (codes "bytes 1-2/5") (codes "2") (codes "el")
unfolding serve_backend_range parse_byte_range trim cut offset_byte_range parse_int format_uint
    content_range
middle = refl

serve_backend_range-IsHonest_example :
    IsHonest object (serve_backend_range storage fetch "k" (codes "bytes=-2"))
serve_backend_range-IsHonest_example =
    serve_backend_range-IsHonest storage fetch "k" object object_held (codes "bytes=-2")

serve_backend_range-closed_example :
    serve_backend_range storage fetch "k" (range_header 1 (format_uint 9))
    ≡ partial text_meta (range_text 1 4 5) (format_uint 4) (codes "ello")
serve_backend_range-closed_example =
    serve_backend_range-closed storage fetch "k" object object_held 1 9 (omega arith) (omega arith)
      (omega arith) (omega arith)
