-- ===== src/Pipeline/Sound.antt =====
-- pipeline.go: the invariant of the pipeline's caches, through the freeze and a request.
use maniflex.Prelude.{
  String, ◌≡◌, refl, sym, ap, ◌∙◌, inl, inr, Bool, true, false, Option, none, some, [], ◌∷◌,
  if◌then◌else◌, Bool-cases,
}
use maniflex.Request.Operation.{Operation}
use maniflex.Request.Context.Types.{GoType, GoValue, Any}
use maniflex.Pipeline.Chain.{MiddlewareFunc}
use maniflex.Pipeline.Registry.{load, freeze}
use maniflex.Pipeline.Cache.{freeze-IsFresh, build-IsFresh, build_fixed, load-cons}
use maniflex.Pipeline.Execute.{
  Pipeline, scope_chain, freeze_pipeline, compose_steps, serve, chain_for,
}
use maniflex.Pipeline.RequestOrder.{
  StepsFresh, plain_chain, compose_steps-eq-plain, IsFreshPipeline,
}
use maniflex.Pipeline.Agree.{
  freeze-Agree, AllShut, AgreeSteps, plain_chain-AgreeSteps, compose_steps-AgreeSteps,
}

module _ (convert : GoType → GoValue → GoValue) (zero_of : GoType → Any) {D : Type 0} where
  -- The invariant: the caches hold what composing gives, and are filled only behind the freeze, which
  -- shuts every registry.
  pub record IsSound (p : Pipeline D) : Type 0 where
    pub fresh : IsFreshPipeline convert zero_of p
    pub unused : p.frozen ≡ false → p.chains ≡ []
    pub shut : p.frozen ≡ true → AllShut p

  -- A call that leaves the pipeline's own cache as it is.
  pub touched-IsSound :
      (p q : Pipeline D)
      → q.frozen ≡ p.frozen
      → q.chains ≡ p.chains
      → StepsFresh q
      → (p.frozen ≡ true → AllShut q × AgreeSteps p q)
      → IsSound p
      → IsSound q
  unfolding load
  touched-IsSound p q same_frozen same_chains steps_fresh agree h = record {
    fresh = record {
      steps_fresh = steps_fresh;
      cached = λ model op fn hit. elim (Bool-cases p.frozen) [
        | inl closed ↦
            h.fresh.cached model op fn (sym (ap (load (model, op)) same_chains) ∙ hit)
            ∙ sym (plain_chain-AgreeSteps convert zero_of p q model op (agree closed).1)
        | inr open_window ↦
            let nothing : load (model, op) q.chains ≡ none =
              ap (load (model, op)) (same_chains ∙ h.unused open_window) in
            cc
      ];
    };
    unused = λ e. same_chains ∙ h.unused (sym same_frozen ∙ e);
    shut = λ e. (agree (sym same_frozen ∙ e)).0;
  }

  pub frozen-IsSound : (p : Pipeline D) → IsSound p → IsSound (freeze_pipeline p)
  unfolding freeze_pipeline freeze load
  frozen-IsSound p h = record {
    fresh = record {
      steps_fresh = record {
        auth_fresh = freeze-IsFresh p.auth h.fresh.steps_fresh.auth_fresh;
        deserialize_fresh = freeze-IsFresh p.deserialize h.fresh.steps_fresh.deserialize_fresh;
        validate_fresh = freeze-IsFresh p.validate h.fresh.steps_fresh.validate_fresh;
        service_fresh = freeze-IsFresh p.service h.fresh.steps_fresh.service_fresh;
        db_fresh = freeze-IsFresh p.db h.fresh.steps_fresh.db_fresh;
        response_fresh = freeze-IsFresh p.response h.fresh.steps_fresh.response_fresh;
      };
      cached = λ model op fn hit.
          h.fresh.cached model op fn hit
          ∙ sym (
              plain_chain-AgreeSteps convert zero_of p (freeze_pipeline p) model op (record {
                auth = freeze-Agree p.auth;
                deserialize = freeze-Agree p.deserialize;
                validate = freeze-Agree p.validate;
                service = freeze-Agree p.service;
                db = freeze-Agree p.db;
                response = freeze-Agree p.response;
              }));
    };
    unused = λ e. cc;
    shut = λ e. record {
      auth = refl;
      deserialize = refl;
      validate = refl;
      service = refl;
      db = refl;
      response = refl;
    };
  }

  -- The step caches that a request fills.
  pub compose_steps-IsSound :
      (p : Pipeline D) (model : String) (op : Operation)
      → IsSound p
      → IsSound (compose_steps convert zero_of p model op).1
  unfolding compose_steps
  compose_steps-IsSound p model op h =
      let fresh = h.fresh.steps_fresh in
      touched-IsSound p (compose_steps convert zero_of p model op).1 refl refl
        (record {
          auth_fresh = build-IsFresh p.auth model op fresh.auth_fresh;
          deserialize_fresh = build-IsFresh p.deserialize model op fresh.deserialize_fresh;
          validate_fresh = build-IsFresh p.validate model op fresh.validate_fresh;
          service_fresh = build-IsFresh p.service model op fresh.service_fresh;
          db_fresh = build-IsFresh p.db model op fresh.db_fresh;
          response_fresh = build-IsFresh p.response model op fresh.response_fresh;
        })
        (λ closed.
          let shut = h.shut closed in
          (
            record {
              auth = (build_fixed p.auth model op shut.auth).0;
              deserialize = (build_fixed p.deserialize model op shut.deserialize).0;
              validate = (build_fixed p.validate model op shut.validate).0;
              service = (build_fixed p.service model op shut.service).0;
              db = (build_fixed p.db model op shut.db).0;
              response = (build_fixed p.response model op shut.response).0;
            },
            compose_steps-AgreeSteps convert zero_of p model op,
          ))
        h

  -- A chain that composing gives is put into the cache under its model and operation.
  pub cached-IsSound :
      (q : Pipeline D) (model : String) (op : Operation) (fn : MiddlewareFunc D)
      → q.frozen ≡ true
      → fn ≡ plain_chain convert zero_of q model op
      → IsSound q
      → IsSound (record q { chains = ((model, op), fn) ∷ q.chains })
  unfolding scope_chain
  cached-IsSound q model op fn closed plain h = record {
    fresh = record {
      steps_fresh = record {
        auth_fresh = h.fresh.steps_fresh.auth_fresh;
        deserialize_fresh = h.fresh.steps_fresh.deserialize_fresh;
        validate_fresh = h.fresh.steps_fresh.validate_fresh;
        service_fresh = h.fresh.steps_fresh.service_fresh;
        db_fresh = h.fresh.steps_fresh.db_fresh;
        response_fresh = h.fresh.steps_fresh.response_fresh;
      };
      cached = λ m o g hit. elim (load-cons (m, o) model op fn g q.chains hit) [
        | inl (e, f, same) ↦ rw (e, f) (sym same ∙ plain)
        | inr below ↦ h.fresh.cached m o g below
      ];
    };
    unused = λ open_window. cc;
    shut = λ e. record {
      auth = (h.shut e).auth;
      deserialize = (h.shut e).deserialize;
      validate = (h.shut e).validate;
      service = (h.shut e).service;
      db = (h.shut e).db;
      response = (h.shut e).response;
    };
  }

  stored-IsSound :
      (q : Pipeline D) (model : String) (op : Operation) (fn : MiddlewareFunc D) (b : Bool)
      → q.frozen ≡ b
      → fn ≡ plain_chain convert zero_of q model op
      → IsSound q
      → IsSound (if b then record q { chains = ((model, op), fn) ∷ q.chains } else q)
  stored-IsSound q model op fn true closed plain h = cached-IsSound q model op fn closed plain h
  stored-IsSound q model op fn false open_window plain h = h

  served-IsSound :
      (p : Pipeline D) (o : Option (MiddlewareFunc D)) (r : MiddlewareFunc D × Pipeline D)
      → IsSound p
      → IsSound r.1
      → IsSound (serve convert zero_of p o r).1
  served-IsSound p none r h k = k
  served-IsSound p (some fn) r h k = h

  pub chain_for-IsSound :
      (p : Pipeline D) (model : String) (op : Operation)
      → IsSound p
      → IsSound (chain_for convert zero_of p model op).1
  unfolding chain_for
  chain_for-IsSound p model op h =
      let q = (compose_steps convert zero_of p model op).1 in
      served-IsSound p (if p.frozen then load (model, op) p.chains else none) _ h (
        stored-IsSound q model op (compose_steps convert zero_of p model op).0 q.frozen refl
          (compose_steps-eq-plain convert zero_of p model op h.fresh.steps_fresh
            ∙ sym (
                plain_chain-AgreeSteps convert zero_of p q model op
                  (compose_steps-AgreeSteps convert zero_of p model op)))
          (compose_steps-IsSound p model op h))
