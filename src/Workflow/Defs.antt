-- ===== src/Workflow/Defs.antt =====
-- middleware/workflow/workflow.go: Machine and Middleware; middleware/workflow/hooks.go: Hooks.
--
-- Guards, hooks and the rest of the pipeline act on the context, which is passed through them. What
-- Read and LockForUpdate answer are arguments. A reply keeps its status, its code and the states; its
-- wording is not modelled. The panic of Middleware for a machine with hooks is not modelled.
use maniflex.Prelude.{
  ℕ, String, Bool, true, false, not, ◌&&◌, ◌||◌, Option, none, some, List, [], ◌∷◌, leb, str_eq,
  any, if◌then◌else◌,
}
use maniflex.Request.Operation.{Operation, op_create, op_update, op_eq}
use maniflex.Request.Context.Map.{Map, lookup}
use maniflex.Request.Context.Types.{Any}

pub record Reply : Type 0 where
  pub status_code : ℕ
  pub code : String
  pub from : String
  pub to : String

pub record WorkContext (S : Type 0) : Type 0 where
  pub parsed_body : Option (Map Any)
  pub has_model : Bool
  pub operation : Operation
  pub resource_id : String
  pub has_tx : Bool
  pub response : Option Reply
  pub rest : S

-- What a call that may fail leaves.
abbrev pub Done : Type 0 → Type 0
Done S = WorkContext S × Option String

abbrev pub Next : Type 0 → Type 0
Next S = WorkContext S → Done S

-- A Guard's Check, and a Hook.
abbrev pub Check : Type 0 → Type 0
Check S = String → String → WorkContext S → Done S

pub record Rule (S : Type 0) : Type 0 where
  pub from : String
  pub to : String
  pub guards : List (Check S)

pub record HookRule (S : Type 0) : Type 0 where
  pub from : String
  pub to : String
  pub fn : Check S

pub record Machine (S : Type 0) : Type 0 where
  pub field : String
  pub rules : List (Rule S)
  pub hooks : List (HookRule S)
  pub has_initial : Bool
  pub initial : List String

-- The record that Read or LockForUpdate finds.
pub data Loaded : Type 0 where
  found : Map Any → Loaded
  missing : Loaded
  load_error : String → Loaded

-- r.from == "*" || r.from == from
abbrev pub covers : String → String → Bool
covers pattern state = str_eq pattern "*" || str_eq pattern state

-- fmt.Sprintf("%v", v) is the text of the value.
abbrev pub shown : Option Any → Option String
shown none = none
shown (some none) = none
shown (some (some v)) = some v.text

unfoldable pub string_field : String → Map Any → Option String
unfolding lookup
string_field key m = shown (lookup key m)

abbrev pub or_empty : Option String → String
or_empty none = ""
or_empty (some s) = s

abbrev pub body_field : String → Option (Map Any) → Option String
body_field key none = none
body_field key (some m) = string_field key m

-- ctx.Response != nil && ctx.Response.StatusCode >= 400
abbrev pub refuses : Option Reply → Bool
refuses none = false
refuses (some r) = leb 400 r.status_code

abbrev pub is_none : Option (Map Any) → Bool
is_none none = true
is_none (some m) = false

module _ {S : Type 0} where
  abbrev pub reply : Reply → WorkContext S → WorkContext S
  reply r c = record c { response = some r }

  -- rejectTransition, rejectGuard and rejectInitial.
  abbrev pub reject : String → String → WorkContext S → WorkContext S
  reject from to =
      reply (record { status_code = 422; code = "INVALID_TRANSITION"; from = from; to = to })

  -- ctx.Abort
  abbrev pub abort : ℕ → String → WorkContext S → WorkContext S
  abort status code = reply (record { status_code = status; code = code; from = ""; to = "" })

  unfoldable pub match_rule : List (Rule S) → String → String → Option (List (Check S))
  match_rule [] from to = none
  match_rule (r ∷ rs) from to =
      if covers r.from from && covers r.to to then some r.guards else match_rule rs from to

  -- if err := …; err != nil { … }
  abbrev pub on_error : Done S → Done S → Done S → Done S
  on_error (c, some err) failed rest = failed
  on_error (c, none) failed rest = rest

  -- The loop over the guards: the first that fails rejects, and else it goes on with `follow`.
  unfoldable pub run_guards : List (Check S) → String → String → Next S → Next S
  run_guards [] from to follow c = follow c
  run_guards (g ∷ gs) from to follow c =
      let r = g from to c in
      on_error r (reject from to r.0, none) (run_guards gs from to follow r.0)

  abbrev pub on_match : Option (List (Check S)) → String → String → Next S → Next S
  on_match none from to follow c = (reject from to c, none)
  on_match (some guards) from to follow c = run_guards guards from to follow c

  abbrev pub on_create : Machine S → Next S → WorkContext S → Option String → Done S
  on_create m next c none = next c
  on_create m next c (some to) =
      if m.has_initial && not (any (str_eq to) m.initial) then (reject "" to c, none) else next c

  unfoldable pub handle_create : Machine S → Next S → WorkContext S → Done S
  unfolding string_field
  handle_create m next c = on_create m next c (body_field m.field c.parsed_body)

  abbrev pub on_current : Machine S → Next S → String → WorkContext S → Loaded → Done S
  on_current m next to c missing = next c
  on_current m next to c (load_error err) = (abort 500 "WORKFLOW_LOAD_ERROR" c, none)
  on_current m next to c (found current) =
      let from = or_empty (string_field m.field current) in
      if str_eq from to then next c else on_match (match_rule m.rules from to) from to next c

  abbrev pub on_update :
      Machine S → (WorkContext S → Loaded) → Next S → WorkContext S → Option String → Done S
  on_update m read next c none = next c
  on_update m read next c (some to) =
      if str_eq c.resource_id "" then next c else on_current m next to c (read c)

  unfoldable pub handle_update :
      Machine S → (WorkContext S → Loaded) → Next S → WorkContext S → Done S
  unfolding match_rule run_guards string_field
  handle_update m read next c = on_update m read next c (body_field m.field c.parsed_body)

  unfoldable pub middleware : Machine S → (WorkContext S → Loaded) → Next S → WorkContext S → Done S
  unfolding handle_create handle_update op_eq
  middleware m read next c =
      if is_none c.parsed_body || not c.has_model
      then next c
      else if op_eq c.operation op_create
      then handle_create m next c
      else if op_eq c.operation op_update
      then handle_update m read next c
      else next c

  unfoldable pub hooks_for : List (HookRule S) → String → String → List (Check S)
  hooks_for [] from to = []
  hooks_for (h ∷ hs) from to =
      let rest = hooks_for hs from to in
      if covers h.from from && covers h.to to then h.fn ∷ rest else rest

  -- A hook that set its own response keeps it.
  abbrev pub hook_failed : WorkContext S → WorkContext S
  hook_failed c = if refuses c.response then c else abort 500 "WORKFLOW_HOOK_ERROR" c

  unfoldable pub run_hooks : List (Check S) → String → String → Next S
  run_hooks [] from to c = (c, none)
  run_hooks (fn ∷ fns) from to c =
      let r = fn from to c in
      on_error r (hook_failed r.0, none)
        (if refuses r.0.response then (r.0, none) else run_hooks fns from to r.0)

  unfoldable pub apply_transition : Machine S → String → String → Next S
  unfolding match_rule run_guards hooks_for run_hooks
  apply_transition m from to c =
      on_match (match_rule m.rules from to) from to (run_hooks (hooks_for m.hooks from to) from to)
        c

  abbrev pub after_next : Machine S → String → String → Done S → Done S
  after_next m from to (c, some err) = (c, some err)
  after_next m from to (c, none) =
      if refuses c.response
      then (c, none)
      else if str_eq from to
      then (c, none)
      else apply_transition m from to c

  -- Both a record that is gone and a lock that fails go on to the DB step.
  abbrev pub on_locked : Machine S → Next S → String → WorkContext S × Loaded → Done S
  on_locked m next to (c, missing) = next c
  on_locked m next to (c, load_error err) = next (abort 500 "WORKFLOW_LOAD_ERROR" c)
  on_locked m next to (c, found current) =
      after_next m (or_empty (string_field m.field current)) to (next c)

  abbrev pub on_write :
      Machine S
      → (WorkContext S → WorkContext S × Loaded)
      → Next S
      → WorkContext S
      → Option String
      → Done S
  on_write m lock next c none = next c
  on_write m lock next c (some to) =
      if str_eq c.resource_id ""
      then next c
      else if not c.has_tx
      then (abort 500 "WORKFLOW_NO_TX" c, none)
      else on_locked m next to (lock c)

  unfoldable pub hooks :
      Machine S → (WorkContext S → WorkContext S × Loaded) → Next S → WorkContext S → Done S
  unfolding string_field op_eq
  hooks m lock next c =
      if is_none c.parsed_body || (not c.has_model || not (op_eq c.operation op_update))
      then next c
      else on_write m lock next c (body_field m.field c.parsed_body)
