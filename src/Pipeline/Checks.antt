-- ===== src/Pipeline/Checks.antt =====
-- The startup checks on registrations (pipeline.go: middlewareNeverRunsOnStep,
-- collectIneffectiveMiddleware, collectFieldRequirementIssues, responseReplacedFor). An issue is its
-- step and the names that its message gives; the wording of the message is not modelled.
use maniflex.Prelude.{
  String, Bool, true, false, not, ◌&&◌, Option, none, some, List, [], ◌∷◌, ◌++◌, str_eq, any, all,
  if◌then◌else◌,
}
use maniflex.Request.Operation.{Operation, op_skips_step}
use maniflex.Request.Context.Types.{ModelMeta, field_by_json_name}
use maniflex.Pipeline.Registry.{
  Position, replace, MiddlewareConfig, RegisteredMiddleware, StepRegistry, applies, is_empty,
}
use maniflex.Pipeline.Execute.{Pipeline, steps}

unfoldable pub middleware_never_runs_on_step : List Operation → String → Bool
unfolding op_skips_step
middleware_never_runs_on_step ops step_name =
    if is_empty ops then false else all (λ op. op_skips_step op step_name) ops

pub data Issue : Type 0 where
  never_runs : String → String → List Operation → Issue
  model_lacks_field : String → String → String → String → Issue
  no_model_has_field : String → String → String → Issue

abbrev pub shown_name : String → String
shown_name name = if str_eq name "" then "<unnamed>" else name

abbrev pub shown_gate : String → String
shown_gate name = if str_eq name "[unnamed]" then "<unnamed>" else shown_name name

abbrev pub is_replace : Position → Bool
is_replace replace = true
is_replace _ = false

module _ {D : Type 0} where
  unfoldable pub ineffective_on : StepRegistry D → List (RegisteredMiddleware D) → List Issue
  unfolding middleware_never_runs_on_step
  ineffective_on s [] = []
  ineffective_on s (m ∷ ms) =
      let rest = ineffective_on s ms in
      if middleware_never_runs_on_step m.cfg.operations s.name
      then never_runs (shown_name m.cfg.name) s.display_name m.cfg.operations ∷ rest
      else rest

  unfoldable pub ineffective_in : List (StepRegistry D) → List Issue
  unfolding ineffective_on
  ineffective_in [] = []
  ineffective_in (s ∷ ss) = ineffective_on s s.middlewares ++ ineffective_in ss

  unfoldable pub collect_ineffective_middleware : Pipeline D → List Issue
  unfolding ineffective_in
  collect_ineffective_middleware p = ineffective_in (steps p)

  unfoldable pub response_replaced_for : Pipeline D → String → Operation → Bool
  unfolding applies
  response_replaced_for p model op =
      any (λ m. is_replace m.cfg.position && not m.cfg.provides_scope && applies m.cfg model op)
        p.response.middlewares

abbrev pub has_field : String → ModelMeta → Bool
has_field field m = elim (field_by_json_name m.fields field) [ none ↦ false | some _ ↦ true ]

-- Registry.Get: the models by name, in the order of registration.
unfoldable pub get : List ModelMeta → String → Option ModelMeta
get [] name = none
get (m ∷ ms) name = if str_eq m.name name then some m else get ms name

abbrev pub lacking : String → String → String → String → Option ModelMeta → List Issue
lacking name step field model none = []
lacking name step field model (some m) =
    if has_field field m then [] else model_lacks_field name step field model ∷ []

unfoldable pub scoped_issues : List ModelMeta → String → String → String → List String → List Issue
unfolding get field_by_json_name
scoped_issues reg name step field [] = []
scoped_issues reg name step field (model ∷ models) =
    lacking name step field model (get reg model) ++ scoped_issues reg name step field models

unfoldable pub check_field_requirement :
    List ModelMeta → String → MiddlewareConfig → String → List Issue
unfolding scoped_issues
check_field_requirement reg step cfg field =
    let name = shown_gate cfg.name in
    if not (is_empty cfg.models)
    then scoped_issues reg name step field cfg.models
    else if any (has_field field) reg
    then []
    else no_model_has_field name step field ∷ []

unfoldable pub required_issues :
    List ModelMeta → String → MiddlewareConfig → List String → List Issue
unfolding check_field_requirement
required_issues reg step cfg [] = []
required_issues reg step cfg (field ∷ fields) =
    check_field_requirement reg step cfg field ++ required_issues reg step cfg fields

module _ {D : Type 0} where
  unfoldable pub requirements_on :
      List ModelMeta → String → List (RegisteredMiddleware D) → List Issue
  unfolding required_issues
  requirements_on reg step [] = []
  requirements_on reg step (m ∷ ms) =
      required_issues reg step m.cfg m.cfg.required_fields ++ requirements_on reg step ms

  unfoldable pub requirements_in : List ModelMeta → List (StepRegistry D) → List Issue
  unfolding requirements_on
  requirements_in reg [] = []
  requirements_in reg (s ∷ ss) =
      requirements_on reg s.display_name s.middlewares ++ requirements_in reg ss

  unfoldable pub collect_field_requirement_issues : Pipeline D → List ModelMeta → List Issue
  unfolding requirements_in
  collect_field_requirement_issues p reg = requirements_in reg (steps p)
