-- ===== src/Request/Operation.antt =====
-- The operations of a request (context.go) and what one operation implies of another
-- (middleware.go: derivedOperations; pipeline.go: stepsSkippedByOp).
use mathlib.Core.Bool.{decide, decide_iff}
use maniflex.Prelude.{String, ◌≡◌, refl, ◌↔◌, Bool, true, List, [], ◌∷◌, any, str_eq}

pub data Operation : Type 0 where
  op_create op_read op_update op_delete op_list op_options op_head : Operation
  op_read_attachment op_read_history op_action op_search op_export op_presign_upload : Operation

unfoldable pub Operation-discrete : Discrete Operation
Operation-discrete = hlevel

-- Go's == on two operations.
unfoldable pub op_eq : Operation → Operation → Bool
unfolding Operation-discrete decide
op_eq a b = decide (Operation-discrete a b)

abbrev pub derived_operations : Operation → List Operation
derived_operations op_list = op_export ∷ []
derived_operations op_read = op_read_attachment ∷ op_read_history ∷ []
derived_operations _ = []

unfoldable pub operation_covers : Operation → Operation → Bool
operation_covers registered actual = any (op_eq actual) (derived_operations registered)

abbrev pub steps_skipped_by_op : Operation → List String
steps_skipped_by_op op_action = "deserialize" ∷ "validate" ∷ "service" ∷ "db" ∷ []
steps_skipped_by_op op_search = "deserialize" ∷ "validate" ∷ "service" ∷ "db" ∷ []
steps_skipped_by_op op_presign_upload = "deserialize" ∷ "validate" ∷ "service" ∷ "db" ∷ []
steps_skipped_by_op _ = []

unfoldable pub op_skips_step : Operation → String → Bool
op_skips_step op step_name = any (str_eq step_name) (steps_skipped_by_op op)

pub op_eq_iff : (a b : Operation) → (op_eq a b ≡ true) ↔ (a ≡ b)
unfolding op_eq
op_eq_iff a b = decide_iff (Operation-discrete a b)

covers_export : operation_covers op_list op_export ≡ true
unfolding operation_covers op_eq
covers_export = refl
