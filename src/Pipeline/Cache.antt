-- ===== src/Pipeline/Cache.antt =====
-- The cache of composed chains (middleware.go: Register, freeze, build).
use maniflex.Prelude.{
  String, ◌≡◌, refl, ap, sym, ◌∙◌, true, false, ◌&&◌, some, List, [], ◌∷◌, arith, ◌⊎◌, inl, inr,
  Bool-cases, Option-cases, str_eq, eq_iff,
}
use maniflex.Request.Operation.{Operation, op_eq, op_eq_iff}
use maniflex.Pipeline.Chain.{MiddlewareFunc}
use maniflex.Pipeline.Registry.{
  StepRegistry, MiddlewareOption, ChainKey, Chains, load, register, freeze, compose, compose_loop,
  build, store, new_step_registry,
}

module _ {D : Type 0} where
  -- What the cache holds is what `compose` gives, and it is empty while registration is open.
  pub record IsFresh (s : StepRegistry D) : Type 0 where
    pub cached :
        (model : String) (op : Operation) (fn : MiddlewareFunc D)
        → load (model, op) s.chains ≡ some fn
        → fn ≡ compose s model op
    pub closed : s.frozen ≡ false → s.chains ≡ []

  -- An entry under a key that is asked for is the first one, or one further down.
  pub load-cons :
      (k : ChainKey) (m : String) (o : Operation) (f g : MiddlewareFunc D) (rest : Chains D)
      → load k (((m, o), f) ∷ rest) ≡ some g
      → ((k.0 ≡ m) × (k.1 ≡ o) × (f ≡ g)) ⊎ (load k rest ≡ some g)
  unfolding load
  load-cons (n, p) m o f g rest h = elim (Bool-cases (str_eq m n && op_eq o p)) [
    | inl hit ↦ inl (ground (arith, eq_iff m n), same_op (ground arith), cc (rw hit at h))
    | inr miss ↦ inr (rw miss at h)
  ]
    where
      same_op : op_eq o p ≡ true → p ≡ o
      same_op e = sym ((op_eq_iff o p).0 e)

  pub new-IsFresh :
      (name display default_name : String) (default_fn : MiddlewareFunc D)
      → IsFresh (new_step_registry name display default_name default_fn)
  unfolding load
  new-IsFresh name display default_name default_fn = record {
    cached = λ model op fn h. cc;
    closed = λ h. refl;
  }

  pub freeze-IsFresh : (s : StepRegistry D) → IsFresh s → IsFresh (freeze s)
  unfolding freeze compose compose_loop
  freeze-IsFresh s h = record { cached = h.cached; closed = λ e. cc }

  empty-IsFresh : (s : StepRegistry D) → s.chains ≡ [] → IsFresh s
  unfolding load
  empty-IsFresh s e = record {
    cached = λ model op fn h. cc (ap (load (model, op)) e);
    closed = λ _. e;
  }

  register-IsFresh :
      (s : StepRegistry D) (fn : MiddlewareFunc D) (opts : List MiddlewareOption)
      (t : StepRegistry D)
      → IsFresh s
      → register s fn opts ≡ some t
      → IsFresh t
  unfolding register
  register-IsFresh s fn opts t h e = empty-IsFresh t (ground (arith, h.closed))

  -- On a fresh registry `build` returns the composed chain, from the cache or not, and leaves the
  -- registry fresh.
  pub build-eq-compose :
      (s : StepRegistry D) (model : String) (op : Operation)
      → IsFresh s
      → (build s model op).0 ≡ compose s model op
  unfolding build
  build-eq-compose s model op h = elim (Bool-cases s.frozen) [
    | inr open_window ↦ simp open_window
    | inl shut ↦ elim (Option-cases (load (model, op) s.chains)) [
      | inl miss ↦ simp (shut, miss)
      | inr (fn, hit) ↦ simp (shut, hit) (h.cached model op fn hit)
    ]
  ]

  store-IsFresh :
      (s : StepRegistry D) (model : String) (op : Operation)
      → IsFresh s
      → s.frozen ≡ true
      → IsFresh (store s model op (compose s model op))
  unfolding store compose compose_loop
  store-IsFresh s model op h shut = record {
    cached = λ m o fn hit. elim (load-cons (m, o) model op (compose s model op) fn s.chains hit) [
      | inl (e, f, g) ↦ rw (e, f) (sym g)
      | inr below ↦ h.cached m o fn below
    ];
    closed = λ open_window. cc;
  }

  pub build-IsFresh :
      (s : StepRegistry D) (model : String) (op : Operation)
      → IsFresh s
      → IsFresh (build s model op).1
  unfolding build
  build-IsFresh s model op h = elim (Bool-cases s.frozen) [
    | inr open_window ↦ simp open_window h
    | inl shut ↦ elim (Option-cases (load (model, op) s.chains)) [
      | inl miss ↦ simp (shut, miss) (store-IsFresh s model op h shut)
      | inr (fn, hit) ↦ simp (shut, hit) h
    ]
  ]

  -- What a program does with the registry of a step.
  pub data Step : StepRegistry D → StepRegistry D → Type 0 where
    registers :
        {s t : StepRegistry D} (fn : MiddlewareFunc D) (opts : List MiddlewareOption)
        → register s fn opts ≡ some t
        → Step s t
    freezes : {s t : StepRegistry D} → t ≡ freeze s → Step s t
    builds :
        {s t : StepRegistry D} (model : String) (op : Operation)
        → t ≡ (build s model op).1
        → Step s t

  pub data Reach (s : StepRegistry D) : StepRegistry D → Type 0 where
    here : Reach s s
    next : {t u : StepRegistry D} → Reach s t → Step t u → Reach s u

  pub Step-IsFresh : {s t : StepRegistry D} → Step s t → IsFresh s → IsFresh t
  Step-IsFresh {s} {t} (registers fn opts e) h = register-IsFresh s fn opts t h e
  Step-IsFresh {s} (freezes e) h = rw e (freeze-IsFresh s h)
  Step-IsFresh {s} (builds model op e) h = rw e (build-IsFresh s model op h)

  pub Reach-IsFresh : {s t : StepRegistry D} → Reach s t → IsFresh s → IsFresh t
  Reach-IsFresh here h = h
  Reach-IsFresh (next r st) h = Step-IsFresh st (Reach-IsFresh r h)

  -- Whatever registrations, freezes and builds came before, in any order, the next build returns
  -- the chain that composing the current registrations gives: the cache is never stale.
  pub cache_never_stale :
      (name display default_name : String) (default_fn : MiddlewareFunc D) {s : StepRegistry D}
      (model : String) (op : Operation)
      → Reach (new_step_registry name display default_name default_fn) s
      → (build s model op).0 ≡ compose s model op
  cache_never_stale name display default_name default_fn {s} model op r =
      build-eq-compose s model op
        (Reach-IsFresh r (new-IsFresh name display default_name default_fn))

  pub build_fixed :
      (s : StepRegistry D) (model : String) (op : Operation)
      → s.frozen ≡ true
      → ((build s model op).1.frozen ≡ true)
        × ((build s model op).1.middlewares ≡ s.middlewares)
        × ((build s model op).1.default_fn ≡ s.default_fn)
  unfolding build store
  build_fixed s model op shut = elim (Option-cases (load (model, op) s.chains)) [
    | inl miss ↦ simp (shut, miss) (refl, refl, refl)
    | inr (fn, hit) ↦ simp (shut, hit) (refl, refl, refl)
  ]

  pub Step-fixed :
      {s t : StepRegistry D}
      → Step s t
      → s.frozen ≡ true
      → (t.frozen ≡ true) × (t.middlewares ≡ s.middlewares) × (t.default_fn ≡ s.default_fn)
  unfolding register freeze
  Step-fixed (registers fn opts e) shut = absurd (ground arith)
  Step-fixed (freezes e) shut = rw e (refl, refl, refl)
  Step-fixed {s} (builds model op e) shut = rw e (build_fixed s model op shut)

  -- After the freeze no call changes what is registered or the built-in handler, and the freeze is
  -- not undone.
  pub frozen_registrations_fixed :
      {s t : StepRegistry D}
      → s.frozen ≡ true
      → Reach s t
      → (t.frozen ≡ true) × (t.middlewares ≡ s.middlewares) × (t.default_fn ≡ s.default_fn)
  frozen_registrations_fixed shut here = (shut, refl, refl)
  frozen_registrations_fixed shut (next r st) =
      let (closed, same, core) = frozen_registrations_fixed shut r in
      let (closed', same', core') = Step-fixed st closed in (closed', same' ∙ same, core' ∙ core)
