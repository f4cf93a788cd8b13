-- ===== src/Pipeline/Registry.antt =====
-- The registry of one step (middleware.go: MiddlewareConfig and its options, registeredMiddleware,
-- StepRegistry with Register, freeze, build, compose and scopeMiddlewares).
--
-- Register's panic is `none`. The mutex and the atomics only order these calls, which are taken one
-- after the other here.
use Prim.Native.String.{◌++◌ as append}
use maniflex.Prelude.{
  String, Bool, true, false, ◌&&◌, ◌||◌, Option, none, some, List, [], ◌∷◌, ◌++◌, str_eq, any,
  if◌then◌else◌,
}
use maniflex.Request.Operation.{Operation, op_eq, operation_covers, op_skips_step}
use maniflex.Pipeline.Chain.{MiddlewareFunc, NamedFn, build_named_chain}

pub data Position : Type 0 where
  before after replace : Position

pub record MiddlewareConfig : Type 0 where
  pub models : List String
  pub operations : List Operation
  pub position : Position
  pub name : String
  pub required_fields : List String
  pub provides_scope : Bool

abbrev pub MiddlewareOption : Type 0
MiddlewareOption = MiddlewareConfig → MiddlewareConfig

unfoldable pub for_model : List String → MiddlewareOption
for_model names c = record c { models = c.models ++ names }

unfoldable pub for_operation : List Operation → MiddlewareOption
for_operation ops c = record c { operations = c.operations ++ ops }

unfoldable pub at_position : Position → MiddlewareOption
at_position p c = record c { position = p }

unfoldable pub provides_scope : MiddlewareOption
provides_scope c = record c { provides_scope = true }

unfoldable pub with_name : String → MiddlewareOption
with_name name c = record c { name = name }

unfoldable pub requires_field : List String → MiddlewareOption
requires_field names c = record c { required_fields = c.required_fields ++ names }

-- What Register starts from.
abbrev pub default_config : MiddlewareConfig
default_config = record {
  models = [];
  operations = [];
  position = before;
  name = "[unnamed]";
  required_fields = [];
  provides_scope = false;
}

abbrev pub apply_options : List MiddlewareOption → MiddlewareConfig → MiddlewareConfig
apply_options [] c = c
apply_options (o ∷ os) c = apply_options os (o c)

abbrev pub is_empty {ℓ} : {A : Type ℓ} → List A → Bool
is_empty [] = true
is_empty (x ∷ xs) = false

unfoldable pub applies : MiddlewareConfig → String → Operation → Bool
unfolding op_eq operation_covers
applies cfg model op =
    (is_empty cfg.models || any (λ n. str_eq n model) cfg.models)
    && (is_empty cfg.operations || any (λ o. op_eq o op || operation_covers o op) cfg.operations)

pub record RegisteredMiddleware (D : Type 0) : Type 0 where
  pub fn : MiddlewareFunc D
  pub cfg : MiddlewareConfig

-- The model and the operation that a composed chain is for.
abbrev pub ChainKey : Type 0
ChainKey = String × Operation

abbrev pub key_eq : ChainKey → ChainKey → Bool
key_eq (m, o) (n, p) = str_eq m n && op_eq o p

abbrev pub Chains : Type 0 → Type 0
Chains D = List (ChainKey × MiddlewareFunc D)

pub record StepRegistry (D : Type 0) : Type 0 where
  pub name : String
  pub display_name : String
  pub default_fn : MiddlewareFunc D
  pub default_fn_name : String
  pub middlewares : List (RegisteredMiddleware D)
  pub frozen : Bool
  pub chains : Chains D

-- The variables of the loop of `compose`.
pub record Composed (D : Type 0) : Type 0 where
  pub before_fns : List (NamedFn D)
  pub after_fns : List (NamedFn D)
  pub skipped_fns : List (NamedFn D)
  pub core_fn : MiddlewareFunc D
  pub core_name : String

module _ {D : Type 0} where
  unfoldable pub load : ChainKey → Chains D → Option (MiddlewareFunc D)
  load k [] = none
  load k ((j, f) ∷ rest) = if key_eq j k then some f else load k rest

  -- newStepRegistry, given the display name that it computes from the name.
  abbrev pub new_step_registry : String → String → String → MiddlewareFunc D → StepRegistry D
  new_step_registry name display default_name default_fn = record {
    name = name;
    display_name = display;
    default_fn = default_fn;
    default_fn_name = default_name;
    middlewares = [];
    frozen = false;
    chains = [];
  }

  unfoldable pub register :
      StepRegistry D → MiddlewareFunc D → List MiddlewareOption → Option (StepRegistry D)
  register s fn opts =
      if s.frozen
      then none
      else some (record s {
        middlewares =
            s.middlewares ++ record { fn = fn; cfg = apply_options opts default_config } ∷ [];
      })

  unfoldable pub freeze : StepRegistry D → StepRegistry D
  freeze s = record s { frozen = true }

  abbrev pub named : StepRegistry D → RegisteredMiddleware D → NamedFn D
  named s m = record { step = s.display_name; name = m.cfg.name; fn = m.fn }

  abbrev pub place : Position → NamedFn D → Composed D → Composed D
  place before n acc = record acc { before_fns = acc.before_fns ++ n ∷ [] }
  place after n acc = record acc { after_fns = acc.after_fns ++ n ∷ [] }
  place replace n acc = record acc { core_fn = n.fn; core_name = n.name }

  unfoldable pub compose_one :
      StepRegistry D → String → Operation → RegisteredMiddleware D → Composed D → Composed D
  unfolding applies
  compose_one s model op m acc =
      if m.cfg.provides_scope
      then acc
      else if applies m.cfg model op
      then place m.cfg.position (named s m) acc
      else record acc { skipped_fns = acc.skipped_fns ++ named s m ∷ [] }

  unfoldable pub compose_loop :
      StepRegistry D → String → Operation → List (RegisteredMiddleware D) → Composed D → Composed D
  unfolding compose_one
  compose_loop s model op [] acc = acc
  compose_loop s model op (m ∷ ms) acc = compose_loop s model op ms (compose_one s model op m acc)

  abbrev pub start : StepRegistry D → Composed D
  start s = record {
    before_fns = [];
    after_fns = [];
    skipped_fns = [];
    core_fn = s.default_fn;
    core_name = s.default_fn_name;
  }

  abbrev pub composed : StepRegistry D → String → Operation → Composed D
  composed s model op = compose_loop s model op s.middlewares (start s)

  abbrev pub chain_of : StepRegistry D → Composed D → List (NamedFn D)
  chain_of s acc =
      acc.before_fns
      ++ record { step = s.display_name; name = acc.core_name; fn = acc.core_fn } ∷ acc.after_fns

  unfoldable pub compose : StepRegistry D → String → Operation → MiddlewareFunc D
  unfolding compose_loop
  compose s model op =
      let acc = composed s model op in build_named_chain (chain_of s acc) acc.skipped_fns

  unfoldable pub store : StepRegistry D → String → Operation → MiddlewareFunc D → StepRegistry D
  store s model op fn = record s { chains = ((model, op), fn) ∷ s.chains }

  -- From the cache once the registry is frozen.
  unfoldable pub build : StepRegistry D → String → Operation → MiddlewareFunc D × StepRegistry D
  build s model op =
      if s.frozen
      then elim (load (model, op) s.chains) [
        | some fn ↦ (fn, s)
        | none ↦ let fn = compose s model op in (fn, store s model op fn)
      ]
      else (compose s model op, s)

  abbrev pub scoped : StepRegistry D → RegisteredMiddleware D → NamedFn D
  scoped s m = record { step = append s.display_name "→Scope"; name = m.cfg.name; fn = m.fn }

  -- The loop of scopeMiddlewares.
  unfoldable pub scope_loop :
      StepRegistry D → String → Operation → List (RegisteredMiddleware D) → List (NamedFn D)
  unfolding applies
  scope_loop s model op [] = []
  scope_loop s model op (m ∷ ms) =
      let rest = scope_loop s model op ms in
      if m.cfg.provides_scope && applies m.cfg model op then scoped s m ∷ rest else rest

  unfoldable pub scope_middlewares : StepRegistry D → String → Operation → List (NamedFn D)
  unfolding scope_loop op_skips_step
  scope_middlewares s model op =
      if op_skips_step op s.name then [] else scope_loop s model op s.middlewares
