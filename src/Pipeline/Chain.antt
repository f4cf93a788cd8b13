-- ===== src/Pipeline/Chain.antt =====
-- Middleware and chains (middleware.go: MiddlewareFunc, namedFn, buildNamedChain, buildChain).
--
-- A middleware is given `next` as a function on the context, since the chain shares one `*ServerContext`.
-- ctx.trace is set when the context is made and not afterwards, so it is an argument of its own. The
-- durations that Timings adds to an exit record are not modelled.
use maniflex.Prelude.{
  ℕ, String, Bool, false, Option, none, some, List, [], ◌∷◌, ◌++◌, ◌&&◌, not, str_eq, if◌then◌else◌,
}
use maniflex.Request.Context.Types.{
  ServerContext, TraceConfig, LogRecord, skipped, enter, exit, ApiResponse,
}

-- A Go error, by its message.
abbrev pub Error : Type 0
Error = String

abbrev pub Run : Type 0 → Type 0
Run D = ServerContext D → ServerContext D × Option Error

abbrev pub MiddlewareFunc : Type 0 → Type 0
MiddlewareFunc D = Option TraceConfig → Run D → Run D

pub record NamedFn (D : Type 0) : Type 0 where
  pub step : String
  pub name : String
  pub fn : MiddlewareFunc D

abbrev pub traces_skips : Option TraceConfig → Bool
traces_skips none = false
traces_skips (some t) = t.skips

abbrev pub traces_steps : Option TraceConfig → Bool
traces_steps none = false
traces_steps (some t) = t.steps

abbrev pub traces_aborts : Option TraceConfig → Bool
traces_aborts none = false
traces_aborts (some t) = t.aborts

-- The response of an abort, with the place that called Abort.
abbrev pub aborted : String → Option ApiResponse → Option (ℕ × String × String)
aborted site none = none
aborted site (some r) = some (r.status_code, r.code, site)

module _ {D : Type 0} where
  -- Called with no error and nothing done: the last next of a request.
  abbrev pub done : Run D
  done c = (c, none)

  -- ctx.Logger().Debug
  abbrev pub log_debug : LogRecord → ServerContext D → ServerContext D
  log_debug r c = record c { log = c.log ++ r ∷ [] }

  unfoldable pub log_skipped : List (NamedFn D) → ServerContext D → ServerContext D
  log_skipped [] c = c
  log_skipped (f ∷ fs) c = log_skipped fs (log_debug (skipped f.step f.name) c)

  -- The exit record of the traced path; reporting an abort consumes its site.
  unfoldable pub log_exit : Option TraceConfig → NamedFn D → ServerContext D → ServerContext D
  log_exit tr f c =
      if traces_aborts tr && not (str_eq c.abort_site "")
      then log_debug (exit f.step f.name (aborted c.abort_site c.response))
          (record c { abort_site = "" })
      else log_debug (exit f.step f.name none) c

  abbrev pub finish :
      Option TraceConfig
      → NamedFn D
      → ServerContext D × Option Error
      → ServerContext D × Option Error
  finish tr f (c, err) = (log_exit tr f c, err)

  -- One middleware of a named chain: plain, or between its enter and exit records.
  unfoldable pub run_named : Option TraceConfig → NamedFn D → Run D → Run D
  unfolding log_exit
  run_named tr f next c =
      if traces_steps tr
      then finish tr f (f.fn tr next (log_debug (enter f.step f.name) c))
      else f.fn tr next c

  -- The recursive `run` of buildNamedChain.
  unfoldable pub run_chain : Option TraceConfig → List (NamedFn D) → Run D → Run D
  unfolding run_named
  run_chain tr [] outer_next = outer_next
  run_chain tr (f ∷ fs) outer_next = run_named tr f (run_chain tr fs outer_next)

  unfoldable pub build_named_chain : List (NamedFn D) → List (NamedFn D) → MiddlewareFunc D
  unfolding run_chain log_skipped
  build_named_chain chain skip tr outer_next c =
      run_chain tr chain outer_next (if traces_skips tr then log_skipped skip c else c)

  unfoldable pub build_chain : List (MiddlewareFunc D) → MiddlewareFunc D
  build_chain [] tr outer_next = outer_next
  build_chain (m ∷ ms) tr outer_next = m tr (build_chain ms tr outer_next)
