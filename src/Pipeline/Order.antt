-- ===== src/Pipeline/Order.antt =====
-- In which order the middleware of a step and of a request runs (middleware.go: compose,
-- buildNamedChain, buildChain; pipeline.go: chainFor).
use maniflex.Prelude.{
  String, ◌≡◌, refl, ap, ◌∙◌, Bool, true, false, not, ◌&&◌, Option, none, List, [], ◌∷◌, ◌++◌, map,
  append_assoc, append-nil, arith, filter, if◌then◌else◌,
}
use maniflex.Request.Operation.{Operation}
use maniflex.Request.Context.Types.{TraceConfig}
use maniflex.Pipeline.Chain.{
  Run, MiddlewareFunc, NamedFn, run_named, run_chain, build_named_chain, build_chain,
}
use maniflex.Pipeline.Registry.{
  Position, before, after, replace, RegisteredMiddleware, StepRegistry, Composed, applies, named,
  compose_one, compose_loop, composed, start, chain_of, compose,
}

abbrev pub at : Position → Position → Bool
at before before = true
at after after = true
at replace replace = true
at _ _ = false

abbrev pub last_or {ℓ} : {A : Type ℓ} → A → List A → A
last_or d [] = d
last_or d (x ∷ xs) = last_or x xs

module _ {D : Type 0} where
  -- Two chains one after the other are one chain.
  pub build_chain-append :
      (xs ys : List (MiddlewareFunc D)) (tr : Option TraceConfig) (next : Run D)
      → build_chain (xs ++ ys) tr next ≡ build_chain xs tr (build_chain ys tr next)
  unfolding build_chain
  build_chain-append [] ys tr next = refl
  build_chain-append (x ∷ xs) ys tr next = ap (x tr) (build_chain-append xs ys tr next)

  abbrev pub fn_of : NamedFn D → MiddlewareFunc D
  fn_of f = f.fn

  -- With tracing off a named chain is the plain chain of its functions.
  pub run_chain_untraced :
      (fs : List (NamedFn D)) (next : Run D)
      → run_chain none fs next ≡ build_chain (map fn_of fs) none next
  unfolding run_chain run_named build_chain
  run_chain_untraced [] next = refl
  run_chain_untraced (f ∷ fs) next = ap (f.fn none) (run_chain_untraced fs next)

  -- A registration that runs in its own step at a position, for a model and an operation.
  abbrev pub runs_at : Position → String → Operation → RegisteredMiddleware D → Bool
  runs_at p model op m = not m.cfg.provides_scope && (applies m.cfg model op && at p m.cfg.position)

  -- The core of a step: its last applicable replacement, or the built-in handler.
  abbrev pub core_of :
      StepRegistry D → String → Operation → List (RegisteredMiddleware D) → NamedFn D → NamedFn D
  core_of s model op ms d = last_or d (map (named s) (filter (runs_at replace model op) ms))

  abbrev core : StepRegistry D → Composed D → NamedFn D
  core s acc = record { step = s.display_name; name = acc.core_name; fn = acc.core_fn }

  -- One registration extends the part of its position, and no other.
  compose_one-before :
      (s : StepRegistry D) (model : String) (op : Operation) (m : RegisteredMiddleware D)
      (acc : Composed D) (rest : List (RegisteredMiddleware D))
      → (compose_one s model op m acc).before_fns ++ map (named s) rest
        ≡ acc.before_fns ++ map (named s) (if runs_at before model op m then m ∷ rest else rest)
  unfolding compose_one
  compose_one-before s model op m acc rest =
      ground (arith, append_assoc acc.before_fns (named s m ∷ []) (map (named s) rest))

  compose_one-after :
      (s : StepRegistry D) (model : String) (op : Operation) (m : RegisteredMiddleware D)
      (acc : Composed D) (rest : List (RegisteredMiddleware D))
      → (compose_one s model op m acc).after_fns ++ map (named s) rest
        ≡ acc.after_fns ++ map (named s) (if runs_at after model op m then m ∷ rest else rest)
  unfolding compose_one
  compose_one-after s model op m acc rest =
      ground (arith, append_assoc acc.after_fns (named s m ∷ []) (map (named s) rest))

  compose_one-core :
      (s : StepRegistry D) (model : String) (op : Operation) (m : RegisteredMiddleware D)
      (acc : Composed D) (rest : List (RegisteredMiddleware D))
      → last_or (core s (compose_one s model op m acc)) (map (named s) rest)
        ≡ last_or
            (core s acc)
            (map (named s) (if runs_at replace model op m then m ∷ rest else rest))
  unfolding compose_one
  compose_one-core s model op m acc rest = ground arith

  compose_loop-before :
      (s : StepRegistry D) (model : String) (op : Operation) (ms : List (RegisteredMiddleware D))
      (acc : Composed D)
      → (compose_loop s model op ms acc).before_fns
        ≡ acc.before_fns ++ map (named s) (filter (runs_at before model op) ms)
  unfolding compose_loop
  compose_loop-before s model op [] acc = rw append-nil
  compose_loop-before s model op (m ∷ ms) acc =
      compose_loop-before s model op ms (compose_one s model op m acc)
      ∙ compose_one-before s model op m acc (filter (runs_at before model op) ms)

  compose_loop-after :
      (s : StepRegistry D) (model : String) (op : Operation) (ms : List (RegisteredMiddleware D))
      (acc : Composed D)
      → (compose_loop s model op ms acc).after_fns
        ≡ acc.after_fns ++ map (named s) (filter (runs_at after model op) ms)
  unfolding compose_loop
  compose_loop-after s model op [] acc = rw append-nil
  compose_loop-after s model op (m ∷ ms) acc =
      compose_loop-after s model op ms (compose_one s model op m acc)
      ∙ compose_one-after s model op m acc (filter (runs_at after model op) ms)

  compose_loop-core :
      (s : StepRegistry D) (model : String) (op : Operation) (ms : List (RegisteredMiddleware D))
      (acc : Composed D)
      → core s (compose_loop s model op ms acc)
        ≡ last_or (core s acc) (map (named s) (filter (runs_at replace model op) ms))
  unfolding compose_loop
  compose_loop-core s model op [] acc = refl
  compose_loop-core s model op (m ∷ ms) acc =
      compose_loop-core s model op ms (compose_one s model op m acc)
      ∙ compose_one-core s model op m acc (filter (runs_at replace model op) ms)

  abbrev pub default_core : StepRegistry D → NamedFn D
  default_core s = record { step = s.display_name; name = s.default_fn_name; fn = s.default_fn }

  -- The chain of a step for a model and an operation, in the order in which it runs: the Before
  -- registrations that apply, in the order of registration; the last Replace that applies, or else
  -- the built-in handler; the After registrations that apply. A registration that provides scope
  -- is not in it.
  pub compose_order :
      (s : StepRegistry D) (model : String) (op : Operation)
      → chain_of s (composed s model op)
        ≡ map (named s) (filter (runs_at before model op) s.middlewares)
          ++ core_of s model op s.middlewares (default_core s)
            ∷ map (named s) (filter (runs_at after model op) s.middlewares)
  compose_order s model op = cc (
    compose_loop-before s model op s.middlewares (start s),
    compose_loop-after s model op s.middlewares (start s),
    compose_loop-core s model op s.middlewares (start s),
  )

  -- The functions of a step in the order in which they run.
  abbrev pub entries : StepRegistry D → String → Operation → List (MiddlewareFunc D)
  entries s model op = map fn_of (
      map (named s) (filter (runs_at before model op) s.middlewares)
      ++ core_of s model op s.middlewares (default_core s)
        ∷ map (named s) (filter (runs_at after model op) s.middlewares))

  -- An untraced step runs the functions of its entries, one after the other.
  pub compose_untraced :
      (s : StepRegistry D) (model : String) (op : Operation) (next : Run D)
      → compose s model op none next ≡ build_chain (entries s model op) none next
  unfolding compose build_named_chain
  compose_untraced s model op next =
      run_chain_untraced (chain_of s (composed s model op)) next ∙ rw compose_order
