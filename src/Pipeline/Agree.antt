-- ===== src/Pipeline/Agree.antt =====
-- middleware.go and pipeline.go: registries, and pipelines, that compose the same chains.
use maniflex.Prelude.{String, ◌≡◌, refl, inl, inr, true, arith, Bool-cases, Option-cases}
use maniflex.Request.Operation.{Operation}
use maniflex.Request.Context.Types.{GoType, GoValue, Any}
use maniflex.Pipeline.Registry.{
  StepRegistry, load, register, freeze, store, build, compose, compose_loop, scope_loop,
  scope_middlewares,
}
use maniflex.Pipeline.Cache.{Step, registers, freezes, builds}
use maniflex.Pipeline.Execute.{Pipeline, scope_entries, scope_chain, compose_steps}
use maniflex.Pipeline.RequestOrder.{plain_chain}

module _ {D : Type 0} where
  -- Two registries that compose the same chains.
  pub record Agree (s t : StepRegistry D) : Type 0 where
    pub composes : (model : String) (op : Operation) → compose t model op ≡ compose s model op
    pub scopes :
        (model : String) (op : Operation)
        → scope_middlewares t model op ≡ scope_middlewares s model op

  pub freeze-Agree : (s : StepRegistry D) → Agree s (freeze s)
  unfolding freeze compose compose_loop scope_middlewares scope_loop
  freeze-Agree s = record { composes = λ m o. refl; scopes = λ m o. refl }

  pub build-Agree :
      (s : StepRegistry D) (model : String) (op : Operation) → Agree s (build s model op).1
  unfolding build store compose compose_loop scope_middlewares scope_loop
  build-Agree s model op = elim (Bool-cases s.frozen) [
    | inr open_window ↦ simp (open_window) (record { composes = λ m o. refl; scopes = λ m o. refl })
    | inl shut ↦ elim (Option-cases (load (model, op) s.chains)) [
      | inl miss ↦ simp (shut, miss) (record { composes = λ m o. refl; scopes = λ m o. refl })
      | inr (fn, hit) ↦ simp (shut, hit) (record { composes = λ m o. refl; scopes = λ m o. refl })
    ]
  ]

  pub same-Agree : (s : StepRegistry D) → Agree s s
  same-Agree s = record { composes = λ m o. refl; scopes = λ m o. refl }

  pub Step-Agree : {s t : StepRegistry D} → Step s t → s.frozen ≡ true → Agree s t
  unfolding register
  Step-Agree (registers fn opts e) shut = absurd (ground arith)
  Step-Agree {s} (freezes e) shut = rw e (freeze-Agree s)
  Step-Agree {s} (builds model op e) shut = rw e (build-Agree s model op)

  -- All six registries are shut.
  pub record AllShut (p : Pipeline D) : Type 0 where
    pub auth : p.auth.frozen ≡ true
    pub deserialize : p.deserialize.frozen ≡ true
    pub validate : p.validate.frozen ≡ true
    pub service : p.service.frozen ≡ true
    pub db : p.db.frozen ≡ true
    pub response : p.response.frozen ≡ true

  pub record AgreeSteps (p q : Pipeline D) : Type 0 where
    pub auth : Agree p.auth q.auth
    pub deserialize : Agree p.deserialize q.deserialize
    pub validate : Agree p.validate q.validate
    pub service : Agree p.service q.service
    pub db : Agree p.db q.db
    pub response : Agree p.response q.response

  pub scope_chain-AgreeSteps :
      (p q : Pipeline D) (model : String) (op : Operation)
      → AgreeSteps p q
      → scope_chain q model op ≡ scope_chain p model op
  unfolding scope_chain scope_entries
  scope_chain-AgreeSteps p q model op a =
      rw
        (
          a.auth.scopes model op,
          a.deserialize.scopes model op,
          a.validate.scopes model op,
          a.service.scopes model op,
          a.db.scopes model op,
          a.response.scopes model op,
        )
        refl

module _ (convert : GoType → GoValue → GoValue) (zero_of : GoType → Any) {D : Type 0} where
  pub plain_chain-AgreeSteps :
      (p q : Pipeline D) (model : String) (op : Operation)
      → AgreeSteps p q
      → plain_chain convert zero_of q model op ≡ plain_chain convert zero_of p model op
  plain_chain-AgreeSteps p q model op a = cc (
    a.auth.composes model op,
    a.deserialize.composes model op,
    scope_chain-AgreeSteps p q model op a,
    a.validate.composes model op,
    a.service.composes model op,
    a.db.composes model op,
    a.response.composes model op,
  )

  pub compose_steps-AgreeSteps :
      (p : Pipeline D) (model : String) (op : Operation)
      → AgreeSteps p (compose_steps convert zero_of p model op).1
  unfolding compose_steps
  compose_steps-AgreeSteps p model op = record {
    auth = build-Agree p.auth model op;
    deserialize = build-Agree p.deserialize model op;
    validate = build-Agree p.validate model op;
    service = build-Agree p.service model op;
    db = build-Agree p.db model op;
    response = build-Agree p.response model op;
  }
