-- ===== src/Pipeline/Execute.antt =====
-- The whole pipeline (pipeline.go): the six steps in order, the fixed segments between them, the
-- scope segment, the cached chain of a model and operation, and the trimmed pipelines of actions,
-- search and presigned uploads. The OpenAPI pipeline is a component of its own and is not here.
use maniflex.Prelude.{String, Bool, true, Option, none, some, List, [], ◌∷◌, ◌++◌, if◌then◌else◌}
use maniflex.Request.Operation.{Operation}
use maniflex.Request.Context.Types.{GoType, GoValue, Any, ModelMeta, ServerContext, TraceConfig}
use maniflex.Request.Context.Body.{reassert_server_set, strip_client_writes}
use maniflex.Pipeline.Chain.{
  Error, Run, MiddlewareFunc, NamedFn, done, build_named_chain, build_chain,
}
use maniflex.Pipeline.Registry.{StepRegistry, Chains, load, freeze, build, scope_middlewares}

pub record Pipeline (D : Type 0) : Type 0 where
  pub auth : StepRegistry D
  pub deserialize : StepRegistry D
  pub validate : StepRegistry D
  pub service : StepRegistry D
  pub db : StepRegistry D
  pub response : StepRegistry D
  pub frozen : Bool
  pub chains : Chains D

pub record ActionConfig (D : Type 0) : Type 0 where
  pub handler : Run D
  pub middleware : List (MiddlewareFunc D)
  pub response_middleware : List (MiddlewareFunc D)

-- ctx.Model.Name: every dispatch sets the model, so the empty name is never read.
abbrev pub model_name : Option ModelMeta → String
model_name none = ""
model_name (some m) = m.name

module _ {D : Type 0} where
  abbrev pub steps : Pipeline D → List (StepRegistry D)
  steps p = p.auth ∷ p.deserialize ∷ p.validate ∷ p.service ∷ p.db ∷ p.response ∷ []

  unfoldable pub freeze_pipeline : Pipeline D → Pipeline D
  unfolding freeze
  freeze_pipeline p = record p {
    auth = freeze p.auth;
    deserialize = freeze p.deserialize;
    validate = freeze p.validate;
    service = freeze p.service;
    db = freeze p.db;
    response = freeze p.response;
    frozen = true;
  }

  unfoldable pub scope_entries : List (StepRegistry D) → String → Operation → List (NamedFn D)
  unfolding scope_middlewares
  scope_entries [] model op = []
  scope_entries (s ∷ ss) model op = scope_middlewares s model op ++ scope_entries ss model op

  abbrev pub scope_segment : List (NamedFn D) → MiddlewareFunc D
  scope_segment [] = λ tr next. next
  scope_segment (f ∷ fs) = build_named_chain (f ∷ fs) []

  unfoldable pub scope_chain : Pipeline D → String → Operation → MiddlewareFunc D
  scope_chain p model op = scope_segment (scope_entries (steps p) model op)

  -- The handler as a middleware: an error ends the chain.
  abbrev pub continue : Run D → ServerContext D × Option Error → ServerContext D × Option Error
  continue next (c, none) = next c
  continue next (c, some err) = (c, some err)

  unfoldable pub handler_fn : Run D → MiddlewareFunc D
  handler_fn handler tr next c = continue next (handler c)

  unfoldable pub execute_action :
      Pipeline D
      → Option TraceConfig
      → ActionConfig D
      → ServerContext D
      → (ServerContext D × Option Error) × Pipeline D
  execute_action p tr cfg c =
      let model = model_name c.model in
      let (auth, auth') = build p.auth model c.operation in
      let (response, response') = build p.response model c.operation in
      (
        build_chain
            (auth
              ∷ scope_chain p model c.operation
              ∷ (cfg.middleware
                  ++ (handler_fn cfg.handler ∷ (cfg.response_middleware ++ response ∷ []))))
            tr done c,
        record p { auth = auth'; response = response' },
      )

  unfoldable pub execute_trimmed :
      Pipeline D
      → Option TraceConfig
      → Run D
      → ServerContext D
      → (ServerContext D × Option Error) × Pipeline D
  execute_trimmed p tr handler c =
      let model = model_name c.model in
      let (auth, auth') = build p.auth model c.operation in
      let (response, response') = build p.response model c.operation in
      (
        build_chain (auth ∷ scope_chain p model c.operation ∷ handler_fn handler ∷ response ∷ []) tr
            done c,
        record p { auth = auth'; response = response' },
      )

module _ (convert : GoType → GoValue → GoValue) (zero_of : GoType → Any) {D : Type 0} where
  unfoldable pub server_set_chain : MiddlewareFunc D
  server_set_chain tr next c = next (reassert_server_set convert zero_of c)

  unfoldable pub strip_chain : MiddlewareFunc D
  strip_chain tr next c = next (strip_client_writes convert zero_of c)

  -- The composition of chainFor, with the caches of the steps that it fills.
  unfoldable pub compose_steps : Pipeline D → String → Operation → MiddlewareFunc D × Pipeline D
  compose_steps p model op =
      let (auth, auth') = build p.auth model op in
      let (deserialize, deserialize') = build p.deserialize model op in
      let (validate, validate') = build p.validate model op in
      let (service, service') = build p.service model op in
      let (db, db') = build p.db model op in
      let (response, response') = build p.response model op in
      (
        build_chain (
            auth
            ∷ deserialize
            ∷ server_set_chain
            ∷ scope_chain p model op
            ∷ validate
            ∷ strip_chain
            ∷ service
            ∷ db
            ∷ response
            ∷ []),
        record p {
          auth = auth';
          deserialize = deserialize';
          validate = validate';
          service = service';
          db = db';
          response = response';
        },
      )

  abbrev store_chain :
      String → Operation → MiddlewareFunc D × Pipeline D → MiddlewareFunc D × Pipeline D
  store_chain model op (fn, p) =
      (fn, if p.frozen then record p { chains = ((model, op), fn) ∷ p.chains } else p)

  -- The chain in the cache, or else the one that is composed now.
  abbrev pub serve :
      Pipeline D
      → Option (MiddlewareFunc D)
      → MiddlewareFunc D × Pipeline D
      → MiddlewareFunc D × Pipeline D
  serve p (some fn) composed = (fn, p)
  serve p none composed = composed

  unfoldable pub chain_for : Pipeline D → String → Operation → MiddlewareFunc D × Pipeline D
  chain_for p model op =
      serve p (if p.frozen then load (model, op) p.chains else none)
        (store_chain model op (compose_steps p model op))

  unfoldable pub execute :
      Pipeline D
      → Option TraceConfig
      → ServerContext D
      → (ServerContext D × Option Error) × Pipeline D
  execute p tr c = let (fn, p') = chain_for p (model_name c.model) c.operation in (fn tr done c, p')
