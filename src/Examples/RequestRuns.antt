-- ===== src/Examples/RequestRuns.antt =====
-- typed_body.go and steps.go on a small model.
use maniflex.Prelude.{
  String, ◌≡◌, refl, Bool, true, false, ◌&&◌, none, some, [], ◌∷◌, str_eq, any, arith, All, List,
  Bool-cases, inl, inr, sym, ap, ◌∙◌, eq_iff,
}
use maniflex.Request.Operation.{op_create, op_eq}
use maniflex.Request.Context.Map.{Map, insert, delete, has}
use maniflex.Request.Context.Types.{
  GoType, GoValue, Any, plain, FieldMeta, ModelMeta, TypedRecord, ServerContext, field_by_json_name,
}
use maniflex.Request.Context.Body.{
  fit, fields_of, set_field, server_set_field, stripped_from_write, reassert_server_set,
  strip_client_writes, delete_field, strip_fields,
}
use maniflex.Request.Writes.Strip.{value_at}
use maniflex.Request.Writes.Stamps.{IsDistinct}
use maniflex.Request.Writes.Columns.{stamp_outlasts_client}
use maniflex.Request.Writes.Sync.{IsOnly, column}

abbrev text_type : GoType
text_type = record { name = "string"; kind = plain }

abbrev convert : GoType → GoValue → GoValue
convert t v = record v { type_of = t }

abbrev zero_of : GoType → Any
zero_of t = some (record { type_of = t; text = "" })

abbrev value : String → Any
value s = some (record { type_of = text_type; text = s })

abbrev field : String → Bool → FieldMeta
field name readonly = record {
  json_name = name;
  db_name = name;
  go_type = text_type;
  readonly = readonly;
  immutable = false;
  hidden = false;
  write_only = false;
  encrypted = false;
}

abbrev invoice : ModelMeta
invoice = record {
  name = "Invoice";
  fields = field "id" false ∷ field "title" false ∷ field "created_by" true ∷ [];
}

abbrev post : Map Any → ServerContext (Unit {0})
post body = record {
  model = some invoice;
  operation = op_create;
  parsed_body = some body;
  bound_record = none;
  server_set = [];
  response = none;
  abort_site = "";
  log = [];
  rest = tt;
}

-- A client that writes a readonly field, and the generated id.
abbrev forged : ServerContext (Unit {0})
forged = post (("id", value "7") ∷ ("title", value "t") ∷ ("created_by", value "mallory") ∷ [])

only_the_title_is_left :
    (strip_client_writes convert zero_of forged).parsed_body ≡ some (("title", value "t") ∷ [])
unfolding strip_client_writes strip_fields stripped_from_write delete_field server_set_field op_eq
    delete has
only_the_title_is_left = refl

abbrev stamped : ServerContext (Unit {0})
stamped = set_field convert zero_of "created_by" (value "alice") forged

has_stamp : server_set_field "created_by" stamped ≡ true
unfolding set_field server_set_field insert delete has
has_stamp = refl

no_id :
    any (λ f. str_eq f.db_name "id" && str_eq f.json_name "created_by") (fields_of stamped.model)
    ≡ false
unfolding set_field
no_id = refl

one_stamp : IsDistinct stamped.server_set
unfolding set_field insert delete has
one_stamp = (refl, tt)

-- What the client's body binds to.
abbrev forged_record : TypedRecord
forged_record = record {
  slots = ("title", value "t") ∷ ("created_by", value "mallory") ∷ [];
  present = ("title", tt) ∷ ("created_by", tt) ∷ [];
}

own_column :
    (fs : List FieldMeta) (j : String) (g : FieldMeta)
    → All (λ f. f.db_name ≡ f.json_name) fs
    → field_by_json_name fs j ≡ some g
    → g.db_name ≡ j
unfolding field_by_json_name
own_column [] j g a h = cc
own_column (f ∷ fs) j g (e, a) h = elim (Bool-cases (str_eq f.json_name j)) [
  | inr miss ↦ own_column fs j g a (simp (miss) at h)
  | inl hit ↦
      let found : some f ≡ some g = simp (hit) at h in
      let same : f ≡ g = cc in
      let key : f.json_name ≡ j = ground (arith, eq_iff f.json_name j) in
      sym (ap (λ x. x.db_name) same) ∙ e ∙ key
]

created_by_is_alone : IsOnly (fields_of forged.model) "created_by" "created_by"
created_by_is_alone j g is other =
    rw (own_column (fields_of forged.model) j g (refl, (refl, (refl, tt))) is) other

stamp_outlasts_client_example :
    let parsed = record (set_field convert zero_of "created_by" (value "alice") forged) {
      parsed_body = forged.parsed_body;
      bound_record = some forged_record;
    } in
    let left = strip_client_writes convert zero_of (reassert_server_set convert zero_of parsed) in
    (value_at "created_by" left.parsed_body ≡ some (value "alice"))
    × (column "created_by" left.bound_record ≡ some (value "alice"))
unfolding fit field_by_json_name
stamp_outlasts_client_example =
    stamp_outlasts_client convert zero_of forged "created_by" (value "alice") forged.parsed_body
      forged_record (field "created_by" true) (value "alice") tt refl refl created_by_is_alone refl
