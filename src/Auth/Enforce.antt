-- ===== src/Auth/Enforce.antt =====
-- middleware/auth/abac.go: Enforce and its branches, policyRecord, derefValue and listPolicyRows.
--
-- A stored record, and the rows of a ListResult, stand as the column-keyed maps that RecordToMap makes of
-- them. `read` is what the accessor of the model answers for an id, in a context whose model is set.
-- `I` is the type of the rows of a reply, `V` that of values that are no pointers, and `D` the rest of
-- the context. Rows are kept in place: what a reply holds after an error of the policy is left open.
-- MarkRowScope only labels the middleware.
use maniflex.Prelude.{
  ℕ, String, Bool, true, false, Option, none, some, List, [], ◌∷◌, map, leb, ◌==◌, not, str_eq,
  if◌then◌else◌, length,
}
use maniflex.Request.Operation.{
  Operation, op_create, op_read, op_update, op_delete, op_list, op_read_attachment, op_read_history,
  op_search, op_export,
}
use maniflex.Request.Context.Map.{Map, lookup, insert}
use maniflex.Request.Context.Types.{FieldMeta, ModelMeta}
use maniflex.Auth.Policy.{Policy}

-- A value of a row: a pointer may be nil.
pub data Cell (V : Type 0) : Type 0 where
  nil : Cell V
  direct : V → Cell V
  pointer : Option V → Cell V

abbrev pub Row : Type 0 → Type 0
Row V = Map (Cell V)

abbrev pub deref_value : {V : Type 0} → Cell V → Cell V
deref_value nil = nil
deref_value (direct v) = direct v
deref_value (pointer none) = nil
deref_value (pointer (some v)) = direct v

-- What the DB step leaves: a record, a list, or something else.
pub data DbResult (V : Type 0) : Type 0 where
  no_result : DbResult V
  stored : Option (Row V) → DbResult V
  stored_list : List (Option (Row V)) → DbResult V

pub data Payload (I : Type 0) : Type 0 where
  rows : List I → Payload I
  other_data : Payload I

pub record Reply (I : Type 0) : Type 0 where
  pub status_code : ℕ
  pub payload : Payload I

pub record EnforceContext (V I D : Type 0) : Type 0 where
  pub operation : Operation
  pub restore : Bool
  pub model : Option ModelMeta
  pub resource_id : String
  pub parsed_body : Row V
  pub db_result : DbResult V
  pub response : Option (Reply I)
  pub rest : D

pub data Fetched (V : Type 0) : Type 0 where
  fetched : Option (Row V) → Fetched V
  not_found : Fetched V
  read_failed : String → Fetched V

-- The name that a column has in JSON; of two fields with a column the last counts.
abbrev names_into : List FieldMeta → Map String → Map String
names_into [] names = names
names_into (f ∷ fs) names = names_into fs (insert f.db_name f.json_name names)

abbrev pub json_names : ModelMeta → Map String
json_names model = names_into model.fields []

abbrev pub renamed : Option String → String → String
renamed none k = k
renamed (some name) k = name

abbrev pub rename_row : {V : Type 0} → Map String → Row V → Row V → Row V
rename_row names [] out = out
rename_row names ((k, v) ∷ row) out =
    rename_row names row (insert (renamed (lookup k names) k) (deref_value v) out)

unfoldable pub policy_record : {V : Type 0} → Option ModelMeta → Option (Row V) → Option (Row V)
unfolding lookup insert
policy_record model none = none
policy_record none (some row) = some row
policy_record (some model) (some row) = some (rename_row (json_names model) row [])

-- An error, or the rows.
pub data Aligned (V : Type 0) : Type 0 where
  misaligned : String → Aligned V
  aligned : List (Option (Row V)) → Aligned V

unfoldable pub list_policy_rows : {V : Type 0} → Option ModelMeta → DbResult V → ℕ → Aligned V
list_policy_rows model (stored_list items) want =
    if not (length items == want)
    then misaligned "auth.Enforce: row count"
    else aligned (map (policy_record model) items)
list_policy_rows model _ want = misaligned "auth.Enforce: no ListResult"

-- A continuation: the context that it leaves, and its error.
abbrev pub Run : Type 0 → Type 0
Run C = C → C × Option String

abbrev pub is_derived_read : Operation → Bool
is_derived_read op_read_history = true
is_derived_read op_read_attachment = true
is_derived_read _ = false

-- ctx.Response != nil && ctx.Response.StatusCode >= 400
abbrev pub failed_reply : {I : Type 0} → Option (Reply I) → Bool
failed_reply none = false
failed_reply (some r) = leb 400 r.status_code

abbrev pub set_data : {I : Type 0} → List I → Option (Reply I) → Option (Reply I)
set_data kept none = none
set_data kept (some r) = some (record r { payload = rows kept })

module _ {V I D : Type 0} where
  -- ctx.Abort, as far as the reply goes.
  abbrev pub abort : ℕ → EnforceContext V I D → EnforceContext V I D
  abort status c = record c {
    response = some (record { status_code = status; payload = other_data });
  }

  -- What follows a policy's answer before the DB step.
  abbrev pub admit :
      Run (EnforceContext V I D)
      → EnforceContext V I D × Bool × Option String
      → EnforceContext V I D × Option String
  admit next (c, ok, some e) = (c, some e)
  admit next (c, false, none) = (abort 403 c, none)
  admit next (c, true, none) = next c

  abbrev pub enforce_on_body :
      Policy (EnforceContext V I D) (Option (Row V))
      → Run (EnforceContext V I D)
      → EnforceContext V I D
      → EnforceContext V I D × Option String
  enforce_on_body p next c = admit next (p c (some c.parsed_body))

  abbrev pub on_fetched :
      Policy (EnforceContext V I D) (Option (Row V))
      → Run (EnforceContext V I D)
      → EnforceContext V I D
      → Fetched V
      → EnforceContext V I D × Option String
  on_fetched p next c (fetched row) = admit next (p c (policy_record c.model row))
  on_fetched p next c not_found =
      if is_derived_read c.operation then (abort 404 c, none) else next c
  on_fetched p next c (read_failed e) = (c, some e)

  abbrev pub enforce_on_stored_record :
      (EnforceContext V I D → String → Fetched V)
      → Policy (EnforceContext V I D) (Option (Row V))
      → Run (EnforceContext V I D)
      → EnforceContext V I D
      → EnforceContext V I D × Option String
  enforce_on_stored_record read p next c =
      if str_eq c.resource_id "" then next c else on_fetched p next c (read c c.resource_id)

  -- The answer of the policy after the DB step.
  abbrev pub disclose :
      EnforceContext V I D × Bool × Option String → EnforceContext V I D × Option String
  disclose (c, ok, some e) = (c, some e)
  disclose (c, false, none) = (abort 403 c, none)
  disclose (c, true, none) = (c, none)

  abbrev pub judge :
      Policy (EnforceContext V I D) (Option (Row V))
      → EnforceContext V I D
      → Option (Row V)
      → EnforceContext V I D × Option String
  judge p c none = (c, none)
  judge p c (some row) = disclose (p c (some row))

  abbrev pub judge_result :
      Policy (EnforceContext V I D) (Option (Row V))
      → EnforceContext V I D
      → DbResult V
      → EnforceContext V I D × Option String
  judge_result p c no_result = (c, none)
  judge_result p c (stored row) = judge p c (policy_record c.model row)
  judge_result p c (stored_list items) = judge p c none

  abbrev pub after_read :
      Policy (EnforceContext V I D) (Option (Row V))
      → EnforceContext V I D × Option String
      → EnforceContext V I D × Option String
  after_read p (c, some e) = (c, some e)
  after_read p (c, none) =
      if failed_reply c.response then (c, none) else judge_result p c c.db_result

  -- The loop over the rows: the context and the error that end it, and the rows that are kept.
  abbrev pub on_verdict :
      I
      → EnforceContext V I D × Bool × Option String
      → (EnforceContext V I D → EnforceContext V I D × Option String × List I)
      → EnforceContext V I D × Option String × List I
  on_verdict item (c, ok, some e) more = (c, some e, [])
  on_verdict item (c, false, none) more = more c
  on_verdict item (c, true, none) more = let (c', e, kept) = more c in (c', e, item ∷ kept)

  unfoldable pub keep_rows :
      Policy (EnforceContext V I D) (Option (Row V))
      → List I
      → List (Option (Row V))
      → EnforceContext V I D
      → EnforceContext V I D × Option String × List I
  keep_rows p (item ∷ items) (row ∷ behind) c = on_verdict item (p c row) (keep_rows p items behind)
  keep_rows p [] behind c = (c, none, [])
  keep_rows p (item ∷ items) [] c = (c, none, [])

  abbrev pub kept_response :
      EnforceContext V I D × Option String × List I → EnforceContext V I D × Option String
  kept_response (c, some e, kept) = (c, some e)
  kept_response (c, none, kept) = (record c { response = set_data kept c.response }, none)

  abbrev pub filter_aligned :
      Policy (EnforceContext V I D) (Option (Row V))
      → List I
      → EnforceContext V I D
      → Aligned V
      → EnforceContext V I D × Option String
  filter_aligned p items c (misaligned e) = (c, some e)
  filter_aligned p items c (aligned behind) = kept_response (keep_rows p items behind c)

  abbrev pub filter_payload :
      Policy (EnforceContext V I D) (Option (Row V))
      → EnforceContext V I D
      → Payload I
      → EnforceContext V I D × Option String
  filter_payload p c other_data = (c, none)
  filter_payload p c (rows []) = (c, none)
  filter_payload p c (rows (i ∷ items)) =
      filter_aligned p (i ∷ items) c (list_policy_rows c.model c.db_result (length (i ∷ items)))

  abbrev pub filter_response :
      Policy (EnforceContext V I D) (Option (Row V))
      → EnforceContext V I D
      → Option (Reply I)
      → EnforceContext V I D × Option String
  filter_response p c none = (c, none)
  filter_response p c (some r) =
      if leb 400 r.status_code then (c, none) else filter_payload p c r.payload

  abbrev pub after_list :
      Policy (EnforceContext V I D) (Option (Row V))
      → EnforceContext V I D × Option String
      → EnforceContext V I D × Option String
  after_list p (c, some e) = (c, some e)
  after_list p (c, none) = filter_response p c c.response

  abbrev pub enforce_op :
      (EnforceContext V I D → String → Fetched V)
      → Policy (EnforceContext V I D) (Option (Row V))
      → Run (EnforceContext V I D)
      → Operation
      → EnforceContext V I D
      → EnforceContext V I D × Option String
  enforce_op read p next op_create c = enforce_on_body p next c
  enforce_op read p next op_update c =
      if c.restore then (abort 403 c, none) else enforce_on_stored_record read p next c
  enforce_op read p next op_delete c =
      if c.restore then (abort 403 c, none) else enforce_on_stored_record read p next c
  enforce_op read p next op_read c = after_read p (next c)
  enforce_op read p next op_list c = after_list p (next c)
  enforce_op read p next op_read_history c = enforce_on_stored_record read p next c
  enforce_op read p next op_read_attachment c = enforce_on_stored_record read p next c
  enforce_op read p next op_search c = (abort 403 c, none)
  enforce_op read p next op_export c = (abort 403 c, none)
  enforce_op read p next _ c = next c

  unfoldable pub enforce :
      (EnforceContext V I D → String → Fetched V)
      → Policy (EnforceContext V I D) (Option (Row V))
      → Run (EnforceContext V I D)
      → Run (EnforceContext V I D)
  unfolding keep_rows list_policy_rows policy_record
  enforce read p next c = enforce_op read p next c.operation c
