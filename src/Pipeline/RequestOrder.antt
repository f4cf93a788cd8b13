-- ===== src/Pipeline/RequestOrder.antt =====
-- The order in which a whole request runs (pipeline.go: chainFor, scopeChain, executeAction,
-- executeTrimmed).
use maniflex.Prelude.{
  String, ◌≡◌, refl, ap, ◌∙◌, Bool, true, false, Option, none, some, List, [], ◌∷◌, ◌++◌, map,
  if◌then◌else◌,
}
use maniflex.Request.Operation.{Operation}
use maniflex.Request.Context.Types.{GoType, GoValue, Any}
use maniflex.Pipeline.Chain.{Run, MiddlewareFunc, NamedFn, build_named_chain, build_chain}
use maniflex.Pipeline.Registry.{load, compose}
use maniflex.Pipeline.Cache.{IsFresh, build-eq-compose}
use maniflex.Pipeline.Order.{
  fn_of, entries, compose_untraced, run_chain_untraced, build_chain-append,
}
use maniflex.Pipeline.Execute.{
  Pipeline, steps, scope_entries, scope_segment, scope_chain, server_set_chain, strip_chain,
  compose_steps, serve, chain_for,
}

module _ {D : Type 0} where
  -- The registries of all six steps are fresh.
  pub record StepsFresh (p : Pipeline D) : Type 0 where
    pub auth_fresh : IsFresh p.auth
    pub deserialize_fresh : IsFresh p.deserialize
    pub validate_fresh : IsFresh p.validate
    pub service_fresh : IsFresh p.service
    pub db_fresh : IsFresh p.db
    pub response_fresh : IsFresh p.response

  scope_segment_untraced :
      (fs : List (NamedFn D)) (next : Run D)
      → scope_segment fs none next ≡ build_chain (map fn_of fs) none next
  unfolding build_named_chain build_chain
  scope_segment_untraced [] next = refl
  scope_segment_untraced (f ∷ fs) next = run_chain_untraced (f ∷ fs) next

  -- The functions of the scope segment.
  abbrev pub scope_fns : Pipeline D → String → Operation → List (MiddlewareFunc D)
  scope_fns p model op = map fn_of (scope_entries (steps p) model op)

  scope_chain_untraced :
      (p : Pipeline D) (model : String) (op : Operation) (next : Run D)
      → scope_chain p model op none next ≡ build_chain (scope_fns p model op) none next
  unfolding scope_chain
  scope_chain_untraced p model op next =
      scope_segment_untraced (scope_entries (steps p) model op) next

module _ (convert : GoType → GoValue → GoValue) (zero_of : GoType → Any) {D : Type 0} where
  -- The chain that composing every step gives, with no cache.
  abbrev pub plain_chain : Pipeline D → String → Operation → MiddlewareFunc D
  plain_chain p model op = build_chain (
      compose p.auth model op
      ∷ compose p.deserialize model op
      ∷ server_set_chain convert zero_of
      ∷ scope_chain p model op
      ∷ compose p.validate model op
      ∷ strip_chain convert zero_of
      ∷ compose p.service model op
      ∷ compose p.db model op
      ∷ compose p.response model op
      ∷ [])

  -- The functions of a request in the order in which they run.
  abbrev pub request_order : Pipeline D → String → Operation → List (MiddlewareFunc D)
  request_order p model op =
      entries p.auth model op
      ++ (entries p.deserialize model op
          ++ (server_set_chain convert zero_of
              ∷ (scope_fns p model op
                  ++ (entries p.validate model op
                      ++ (strip_chain convert zero_of
                          ∷ (entries p.service model op
                              ++ (entries p.db model op ++ entries p.response model op)))))))

  plain_chain_untraced :
      (p : Pipeline D) (model : String) (op : Operation) (next : Run D)
      → plain_chain p model op none next ≡ build_chain (request_order p model op) none next
  unfolding build_chain
  plain_chain_untraced p model op next =
      simp (compose_untraced, scope_chain_untraced, build_chain-append)

  pub compose_steps-eq-plain :
      (p : Pipeline D) (model : String) (op : Operation)
      → StepsFresh p
      → (compose_steps convert zero_of p model op).0 ≡ plain_chain p model op
  unfolding compose_steps
  compose_steps-eq-plain p model op h = cc (
    build-eq-compose p.auth model op h.auth_fresh,
    build-eq-compose p.deserialize model op h.deserialize_fresh,
    build-eq-compose p.validate model op h.validate_fresh,
    build-eq-compose p.service model op h.service_fresh,
    build-eq-compose p.db model op h.db_fresh,
    build-eq-compose p.response model op h.response_fresh,
  )

  -- What the pipeline's own cache holds is what composing gives.
  pub record IsFreshPipeline (p : Pipeline D) : Type 0 where
    pub steps_fresh : StepsFresh p
    pub cached :
        (model : String) (op : Operation) (fn : MiddlewareFunc D)
        → load (model, op) p.chains ≡ some fn
        → fn ≡ plain_chain p model op

  of_guarded :
      (b : Bool) (o : Option (MiddlewareFunc D)) (fn : MiddlewareFunc D)
      → (if b then o else none) ≡ some fn
      → o ≡ some fn
  of_guarded true o fn e = e
  of_guarded false o fn e = cc

  serve_either_way :
      (p : Pipeline D) (o : Option (MiddlewareFunc D)) (r : MiddlewareFunc D × Pipeline D)
      (plain : MiddlewareFunc D)
      → ((fn : MiddlewareFunc D) → o ≡ some fn → fn ≡ plain)
      → r.0 ≡ plain
      → (serve convert zero_of p o r).0 ≡ plain
  serve_either_way p none r plain hit miss = miss
  serve_either_way p (some fn) r plain hit miss = hit fn refl

  chain_for-eq-plain :
      (p : Pipeline D) (model : String) (op : Operation)
      → IsFreshPipeline p
      → (chain_for convert zero_of p model op).0 ≡ plain_chain p model op
  unfolding chain_for
  chain_for-eq-plain p model op h =
      serve_either_way p (if p.frozen then load (model, op) p.chains else none) _
        (plain_chain p model op)
        (λ fn e. h.cached model op fn (of_guarded p.frozen (load (model, op) p.chains) fn e))
        (compose_steps-eq-plain p model op h.steps_fresh)

  -- An untraced request runs, cached or not, one function after the other: the entries of the auth
  -- and deserialize steps, the segment that restores the server's stamps, every applicable
  -- ProvidesScope middleware of every step, the entries of validate, the strip of client writes,
  -- and the entries of service, db and response.
  pub fresh-chain_for_order :
      (p : Pipeline D) (model : String) (op : Operation) (next : Run D)
      → IsFreshPipeline p
      → (chain_for convert zero_of p model op).0 none next
        ≡ build_chain (request_order p model op) none next
  fresh-chain_for_order p model op next h =
      ap (λ (m : MiddlewareFunc D). m none next) (chain_for-eq-plain p model op h)
      ∙ plain_chain_untraced p model op next
