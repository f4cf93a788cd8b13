-- ===== src/Examples/EnforceRuns.antt =====
-- middleware/auth/abac.go on a model whose column and JSON names differ.
use maniflex.Prelude.{
  inr, ℕ, String, ◌≡◌, refl, Bool, true, false, Option, none, some, [], ◌∷◌, ◌==◌, map,
  if◌then◌else◌,
}
use maniflex.Request.Operation.{op_list, op_update, op_read_history}
use maniflex.Request.Context.Map.{lookup, delete}
use maniflex.Request.Context.Types.{FieldMeta, ModelMeta, numeric}
use maniflex.Auth.Enforce.{
  Row, Cell, direct, pointer, no_result, stored_list, rows, EnforceContext, Fetched, fetched,
  policy_record, Run, abort, enforce,
}
use maniflex.Auth.Guarded.{decides, allowed_items, enforce-list, enforce-before}

abbrev owner_field : FieldMeta
owner_field = record {
  json_name = "ownerId";
  db_name = "owner_id";
  go_type = record { name = "int"; kind = numeric };
  readonly = false;
  immutable = false;
  hidden = true;
  write_only = false;
  encrypted = false;
}

abbrev note : ModelMeta
note = record { name = "Note"; fields = owner_field ∷ [] }

abbrev owned_by : ℕ → Option (Row ℕ)
owned_by n = some (("owner_id", pointer (some n)) ∷ [])

abbrev is_seven : Option (Cell ℕ) → Bool
is_seven (some (direct n)) = n == 7
is_seven _ = false

-- Rows of owner 7 only.
allow : Option (Row ℕ) → Bool
unfolding lookup
allow none = false
allow (some row) = is_seven (lookup "ownerId" row)

abbrev request : EnforceContext ℕ String ℕ
request = record {
  operation = op_list;
  restore = false;
  model = some note;
  resource_id = "n1";
  parsed_body = [];
  db_result = no_result;
  response = none;
  rest = 0;
}

abbrev listed : EnforceContext ℕ String ℕ
listed = record request {
  db_result = stored_list (owned_by 7 ∷ owned_by 8 ∷ owned_by 7 ∷ []);
  response = some (record { status_code = 200; payload = rows ("a" ∷ "b" ∷ "c" ∷ []) });
}

abbrev list_step : Run (EnforceContext ℕ String ℕ)
list_step c = (listed, none)

abbrev stored_record : EnforceContext ℕ String ℕ → String → Fetched ℕ
stored_record c id = fetched (owned_by 8)

sees_json_names : policy_record (some note) (owned_by 7) ≡ some (("ownerId", direct 7) ∷ [])
unfolding policy_record delete
sees_json_names = refl

enforce-list_example : enforce stored_record (decides allow) list_step request ≡ (
  record listed {
    response = some (record {
      status_code = 200;
      payload = rows (
          allowed_items allow
            ("a" ∷ "b" ∷ "c" ∷ [])
            (map (policy_record (some note)) (owned_by 7 ∷ owned_by 8 ∷ owned_by 7 ∷ [])));
    });
  },
  none,
)
enforce-list_example =
    enforce-list stored_record allow list_step request listed 200 ("a" ∷ "b" ∷ "c" ∷ [])
      (owned_by 7 ∷ owned_by 8 ∷ owned_by 7 ∷ []) refl refl refl refl refl refl

two_are_left :
    allowed_items {I = String} allow
      ("a" ∷ "b" ∷ "c" ∷ [])
      (map (policy_record (some note)) (owned_by 7 ∷ owned_by 8 ∷ owned_by 7 ∷ []))
    ≡ "a" ∷ "c" ∷ []
unfolding allow policy_record delete
two_are_left = refl

abbrev history : EnforceContext ℕ String ℕ
history = record request { operation = op_read_history }

enforce-before_example : enforce stored_record (decides allow) list_step history ≡ (
    if allow (policy_record (some note) (owned_by 8))
    then list_step history
    else (abort 403 history, none))
enforce-before_example =
    enforce-before stored_record allow list_step history (owned_by 8) refl (inr (refl, refl, refl))

-- A restore is refused whatever the policy says.
restore_refused :
    enforce stored_record
      (decides (λ row. true))
      list_step
      (record request { operation = op_update; restore = true })
    ≡ (abort 403 (record request { operation = op_update; restore = true }), none)
unfolding enforce
restore_refused = refl
