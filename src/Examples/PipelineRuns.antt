-- ===== src/Examples/PipelineRuns.antt =====
-- middleware.go and pipeline.go on a small step.
use maniflex.Prelude.{String, ◌≡◌, refl, true, some, [], ◌∷◌}
use maniflex.Request.Operation.{Operation, op_create, op_list, op_export}
use maniflex.Request.Context.Types.{GoType, GoValue, Any}
use maniflex.Pipeline.Chain.{MiddlewareFunc}
use maniflex.Pipeline.Registry.{
  StepRegistry, register, freeze, new_step_registry, compose, build, for_operation, default_config,
}
use maniflex.Pipeline.Cache.{Reach, here, next, registers, freezes, builds, cache_never_stale}
use maniflex.Pipeline.Execute.{Pipeline, freeze_pipeline, chain_for}
use maniflex.Pipeline.Requests.{new_pipeline}

abbrev Rest : Type 0
Rest = Unit {0}

abbrev convert : GoType → GoValue → GoValue
convert t v = record v { type_of = t }

abbrev zero_of : GoType → Any
zero_of t = some (record { type_of = t; text = "" })

abbrev calls : MiddlewareFunc Rest
calls tr rest c = rest c

abbrev stops : MiddlewareFunc Rest
stops tr rest c = (c, some "stopped")

abbrev empty_step : String → StepRegistry Rest
empty_step name = new_step_registry name name "default" calls

abbrev one_registered : StepRegistry Rest
one_registered = record (empty_step "validate") {
  middlewares =
      record { fn = stops; cfg = record default_config { operations = op_list ∷ [] } } ∷ [];
}

registered :
    register (empty_step "validate") stops (for_operation (op_list ∷ []) ∷ []) ≡ some one_registered
unfolding register for_operation
registered = refl

-- Registered, frozen, and built once, so that the chain is in the cache.
abbrev cached_step : StepRegistry Rest
cached_step = (build (freeze one_registered) "Invoice" op_export).1

history : Reach (empty_step "validate") cached_step
history =
    next
      (next (next here (registers stops (for_operation (op_list ∷ []) ∷ []) registered))
        (freezes refl))
      (builds "Invoice" op_export refl)

cache_never_stale_example :
    (build cached_step "Invoice" op_export).0 ≡ compose cached_step "Invoice" op_export
cache_never_stale_example =
    cache_never_stale "validate" "validate" "default" calls "Invoice" op_export history

frozen : (freeze one_registered).frozen ≡ true
unfolding freeze
frozen = refl

-- A registration, the freeze, and a request of each of two models before the one in question.
abbrev validated : StepRegistry Rest
validated = record (new_step_registry "validate" "Validate" "default" calls) {
  middlewares = record { fn = calls; cfg = default_config } ∷ [];
}

abbrev with_validate : Pipeline Rest
with_validate = record (new_pipeline convert zero_of (λ step. calls)) { validate = validated }

abbrev served : Pipeline Rest
served =
    (chain_for convert zero_of
      (chain_for convert zero_of (freeze_pipeline with_validate) "Invoice" op_create).1 "Order"
      op_list).1
