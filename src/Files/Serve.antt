-- ===== src/Files/Serve.antt =====
-- file_range.go: serveStoredFile, serveBackendRange, serveWholeObject, retrieveFileError.
--
-- A storage backend is a record of functions: what it answers for a key. A response is what the client
-- is sent, the headers of setFileHeaders standing as the FileMeta that decides them. http.ServeContent
-- is the standard library's: the model keeps what it is called with.
use maniflex.Prelude.{
  ℕ, ◌+◌, String, Bool, true, false, Option, none, some, ◌++◌, if◌then◌else◌, str_eq,
}
use maniflex.Prelude.Int.{ℤ, pos, negsuc}
use maniflex.Prelude.Bytes.{Bytes, codes, is_empty, format_uint}
use maniflex.Files.ByteRange.{
  ByteRange, content_range, Resolved, serve_whole, unsatisfiable, window, parse_byte_range,
}

pub record FileMeta : Type 0 where
  pub content_type : String
  pub size : ℤ
  pub filename : String

pub data StorageError : Type 0 where
  file_not_found : StorageError
  storage_failure : String → StorageError

pub data Answer (A : Type 0) : Type 0 where
  found : A → Answer A
  refused : StorageError → Answer A

-- What Retrieve opens; seekable when it is an io.ReadSeeker.
pub record Reader : Type 0 where
  pub seekable : Bool
  pub content : Bytes

-- A backend has a retrieve_range when it implements RangeRetriever.
pub record FileStorage : Type 0 where
  pub stat : String → Answer FileMeta
  pub retrieve : String → Answer (FileMeta × Reader)
  pub retrieve_range : Option (String → ℕ → ℕ → Answer (FileMeta × Bytes))

pub data Reply : Type 0 where
  whole : FileMeta → Bytes → Reply
  serve_content : FileMeta → Bytes → Bytes → Reply
  partial : FileMeta → Bytes → Bytes → Bytes → Reply
  range_refused : Bytes → Reply
  serve_error : ℕ → String → Reply

-- The Accept-Ranges header, and the rest.
abbrev pub Response : Type 0
Response = Bool × Reply

abbrev pub retrieve_file_error : StorageError → Reply
retrieve_file_error file_not_found = serve_error 404 "FILE_NOT_FOUND"
retrieve_file_error (storage_failure message) = serve_error 500 "RETRIEVE_ERROR"

-- The header of an unsatisfiable range.
abbrev pub unsatisfied_range : ℤ → Bytes
unsatisfied_range (pos n) = codes "bytes */" ++ format_uint n
unsatisfied_range (negsuc n) = codes "bytes */-" ++ format_uint (n + 1)

abbrev pub write_whole : Answer (FileMeta × Reader) → Reply
write_whole (refused err) = retrieve_file_error err
write_whole (found (meta, rc)) = whole meta rc.content

abbrev pub serve_whole_object : FileStorage → String → Reply
serve_whole_object store key = write_whole (store.retrieve key)

-- What the meta of the window leaves out comes from the Stat that sized it.
abbrev pub fill_meta : FileMeta → FileMeta → FileMeta
fill_meta meta stat = record meta {
  content_type = if str_eq meta.content_type "" then stat.content_type else meta.content_type;
  filename = if str_eq meta.filename "" then stat.filename else meta.filename;
}

abbrev pub write_partial : FileMeta → ByteRange → Answer (FileMeta × Bytes) → Reply
write_partial stat br (refused err) = retrieve_file_error err
write_partial stat br (found (meta, rc)) =
    partial (fill_meta meta stat) (content_range br) (format_uint br.length) rc

abbrev pub serve_resolved :
    FileStorage
    → (String → ℕ → ℕ → Answer (FileMeta × Bytes))
    → String
    → FileMeta
    → Resolved
    → Reply
serve_resolved store fetch key stat serve_whole = serve_whole_object store key
serve_resolved store fetch key stat unsatisfiable = range_refused (unsatisfied_range stat.size)
serve_resolved store fetch key stat (window br) =
    write_partial stat br (fetch key br.start br.length)

abbrev pub serve_sized :
    FileStorage
    → (String → ℕ → ℕ → Answer (FileMeta × Bytes))
    → String
    → Bytes
    → Answer FileMeta
    → Reply
serve_sized store fetch key hdr (refused err) = retrieve_file_error err
serve_sized store fetch key hdr (found stat) =
    serve_resolved store fetch key stat (parse_byte_range hdr stat.size)

unfoldable pub serve_backend_range :
    FileStorage → (String → ℕ → ℕ → Answer (FileMeta × Bytes)) → String → Bytes → Reply
serve_backend_range store fetch key hdr = serve_sized store fetch key hdr (store.stat key)

-- The tiers behind the first: a reader that seeks, or the whole object.
abbrev serve_retrieved : Bool → Bytes → Answer (FileMeta × Reader) → Response
serve_retrieved capable hdr (refused err) = (capable, retrieve_file_error err)
serve_retrieved capable hdr (found (meta, rc)) =
    if rc.seekable
    then (true, (if is_empty hdr then whole meta rc.content else serve_content meta rc.content hdr))
    else (capable, whole meta rc.content)

unfoldable pub serve_stored_file : FileStorage → String → Bytes → Response
unfolding serve_backend_range
serve_stored_file store key hdr = elim store.retrieve_range [
  | none ↦ serve_retrieved false hdr (store.retrieve key)
  | some fetch ↦
      if is_empty hdr
      then serve_retrieved true hdr (store.retrieve key)
      else (true, serve_backend_range store fetch key hdr)
]
