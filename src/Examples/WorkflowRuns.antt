-- ===== src/Examples/WorkflowRuns.antt =====
-- middleware/workflow on orders whose status goes from draft over submitted to approved; the state
-- counts what the hooks did.
use maniflex.Prelude.{
  ℕ, suc, String, ◌≡◌, refl, ◌⊎◌, true, false, not, ◌||◌, none, some, [], ◌∷◌, if◌then◌else◌, ltb,
  str_eq,
}
use maniflex.Request.Operation.{op_update, op_eq}
use maniflex.Request.Context.Map.{Map, lookup}
use maniflex.Request.Context.Types.{Any, plain}
use maniflex.Workflow.{
  WorkContext, Next, Check, Machine, found, string_field, reject, match_rule, run_guards,
  middleware, hooks, handle_update, hooks_for, run_hooks, apply_transition, is_none, body_field,
  or_empty, refuses,
}
use maniflex.Workflow.Rules.{Permits, Forbids, declared_hooks}
use maniflex.Workflow.Transitions.{HooksRun, middleware_decides, hooks_enforce}

abbrev value : String → Any
value s = some (record { type_of = record { name = "string"; kind = plain }; text = s })

-- Passes while the state is below 5.
abbrev small : Check ℕ
small from to c = (c, if ltb c.rest 5 then none else some "too large")

abbrev count_up : Check ℕ
count_up from to c = (record c { rest = suc c.rest }, none)

abbrev orders : Machine ℕ
orders = record {
  field = "status";
  rules =
      record { from = "draft"; to = "submitted"; guards = [] }
      ∷ record { from = "submitted"; to = "approved"; guards = small ∷ [] }
      ∷ [];
  hooks = record { from = "*"; to = "approved"; fn = count_up } ∷ [];
  has_initial = false;
  initial = [];
}

abbrev patch : String → ℕ → WorkContext ℕ
patch to n = record {
  parsed_body = some (("status", value to) ∷ []);
  has_model = true;
  operation = op_update;
  resource_id = "o1";
  has_tx = true;
  response = none;
  rest = n;
}

abbrev stored : String → Map Any
stored status = ("status", value status) ∷ []

abbrev writes : Next ℕ
writes c = (c, none)

skipping_a_state_is_rejected :
    middleware orders (λ c. found (stored "draft")) writes (patch "approved" 0)
    ≡ (reject "draft" "approved" (patch "approved" 0), none)
unfolding middleware handle_update match_rule string_field lookup op_eq
skipping_a_state_is_rejected = refl

names_a_state : body_field "status" (patch "approved" 0).parsed_body ≡ some "approved"
unfolding string_field lookup
names_a_state = refl

leaves_submitted : or_empty (string_field "status" (stored "submitted")) ≡ "submitted"
unfolding string_field lookup
leaves_submitted = refl

-- The state that the stored record is in.
abbrev was : String
was = or_empty (string_field "status" (stored "submitted"))

is_update :
    (is_none (patch "approved" 0).parsed_body || (not true || not (op_eq op_update op_update)))
    ≡ false
unfolding op_eq
is_update = refl

moves : str_eq was "approved" ≡ false
unfolding string_field lookup
moves = refl

middleware_decides_example :
    ((d : WorkContext ℕ) × Permits orders was "approved" (patch "approved" 0) d
      × (middleware orders (λ c. found (stored "submitted")) writes (patch "approved" 0)
          ≡ writes d))
    ⊎ ((d : WorkContext ℕ) × Forbids orders was "approved" (patch "approved" 0) d
        × (middleware orders (λ c. found (stored "submitted")) writes (patch "approved" 0)
            ≡ (reject was "approved" d, none)))
middleware_decides_example =
    middleware_decides orders (λ c. found (stored "submitted")) writes (patch "approved" 0)
      "approved" (stored "submitted") refl refl names_a_state refl refl moves

approved :
    hooks orders (λ c. (c, found (stored "submitted"))) writes (patch "approved" 0)
    ≡ (patch "approved" 1, none)
unfolding hooks apply_transition match_rule run_guards hooks_for run_hooks string_field lookup op_eq
approved = refl

hooks_enforce_example :
    (w e : WorkContext ℕ) × (writes (patch "approved" 0) ≡ (w, none))
    × (refuses w.response ≡ false)
    × Permits orders was "approved" w e
    × HooksRun was "approved" (declared_hooks was "approved" orders.hooks) e (patch "approved" 1)
hooks_enforce_example =
    hooks_enforce orders (λ c. (c, found (stored "submitted"))) writes (patch "approved" 0)
      (patch "approved" 0) (patch "approved" 1) "approved" (stored "submitted") is_update
      names_a_state refl refl refl moves approved refl
