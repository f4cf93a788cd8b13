-- ===== src/Pipeline/Requests.antt =====
-- pipeline.go and middleware.go: the order in which every request runs that a program's pipeline is
-- asked for, whatever was called before it.
use maniflex.Prelude.{String, false, []}
use maniflex.Request.Operation.{Operation}
use maniflex.Request.Context.Types.{GoType, GoValue, Any}
use maniflex.Pipeline.Chain.{MiddlewareFunc}
use maniflex.Pipeline.Registry.{StepRegistry, new_step_registry}
use maniflex.Pipeline.Cache.{Step}
use maniflex.Pipeline.Execute.{Pipeline, freeze_pipeline, chain_for}

module _ (convert : GoType → GoValue → GoValue) (zero_of : GoType → Any) {D : Type 0} where
  -- What a program does with the pipeline: a call on the registry of a step (Register, and the build
  -- that an action or a search asks for), the freeze, or a request, which leaves its chain in the cache.
  pub data Call : Pipeline D → Pipeline D → Type 0 where
    on_auth : {p : Pipeline D} {t : StepRegistry D} → Step p.auth t → Call p (record p { auth = t })
    on_deserialize :
        {p : Pipeline D} {t : StepRegistry D}
        → Step p.deserialize t
        → Call p (record p { deserialize = t })
    on_validate :
        {p : Pipeline D} {t : StepRegistry D}
        → Step p.validate t
        → Call p (record p { validate = t })
    on_service :
        {p : Pipeline D} {t : StepRegistry D} → Step p.service t → Call p (record p { service = t })
    on_db : {p : Pipeline D} {t : StepRegistry D} → Step p.db t → Call p (record p { db = t })
    on_response :
        {p : Pipeline D} {t : StepRegistry D}
        → Step p.response t
        → Call p (record p { response = t })
    freezes_all : {p : Pipeline D} → Call p (freeze_pipeline p)
    asks :
        {p : Pipeline D} (model : String) (op : Operation)
        → Call p (chain_for convert zero_of p model op).1

  pub data Calls (p : Pipeline D) : Pipeline D → Type 0 where
    no_call : Calls p p
    then_calls : {q r : Pipeline D} → Calls p q → Call q r → Calls p r

  -- A pipeline on which nothing was called yet, given the built-in handler of each step.
  abbrev pub new_pipeline : (String → MiddlewareFunc D) → Pipeline D
  new_pipeline core = record {
    auth = new_step_registry "auth" "Auth" "default" (core "auth");
    deserialize = new_step_registry "deserialize" "Deserialize" "default" (core "deserialize");
    validate = new_step_registry "validate" "Validate" "default" (core "validate");
    service = new_step_registry "service" "Service" "default" (core "service");
    db = new_step_registry "db" "DB" "default" (core "db");
    response = new_step_registry "response" "Response" "default" (core "response");
    frozen = false;
    chains = [];
  }
