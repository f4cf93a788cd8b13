-- ===== src/Request/Context/Body.antt =====
-- typed_body.go: SetField, DeleteField, reassertServerSet and the write-through to the typed
-- record; steps.go: the strip of what a client may not write.
use maniflex.Prelude.{
  String, Bool, true, false, not, ◌&&◌, ◌||◌, Option, none, some, List, [], ◌∷◌, str_eq,
  if◌then◌else◌,
}
use maniflex.Request.Operation.{op_update, op_create, op_eq}
use maniflex.Request.Context.Map.{Map, insert, delete, has}
use maniflex.Request.Context.Types.{
  Kind, nilable, numeric, GoType, GoValue, Any, FieldMeta, ModelMeta, field_by_json_name,
  TypedRecord, ServerContext,
}

abbrev pub fields_of : Option ModelMeta → List FieldMeta
fields_of none = []
fields_of (some m) = m.fields

-- NewRequestBody(nil) where there is no body yet.
abbrev pub body_or_new : Option (Map Any) → Map Any
body_or_new none = []
body_or_new (some b) = b

-- RequestBody.del, which does nothing on a nil body.
abbrev pub delete_from : String → Option (Map Any) → Option (Map Any)
delete_from k none = none
delete_from k (some b) = some (delete k b)

abbrev pub is_numeric : Kind → Bool
is_numeric numeric = true
is_numeric _ = false

unfoldable pub clear_record_present : String → TypedRecord → TypedRecord
clear_record_present db_name r = record r { present = delete db_name r.present }

module _ {D : Type 0} where
  unfoldable pub server_set_field : String → ServerContext D → Bool
  server_set_field json_name c = has json_name c.server_set

  unfoldable pub stripped_from_write : ServerContext D → FieldMeta → Bool
  unfolding server_set_field op_eq
  stripped_from_write c f =
      if str_eq f.db_name "id"
      then true
      else if f.readonly && not (server_set_field f.json_name c)
      then true
      else f.immutable && op_eq c.operation op_update && not (server_set_field f.json_name c)

-- reflect.Value.Convert between two numeric types, and reflect.Zero.
module _ (convert : GoType → GoValue → GoValue) (zero_of : GoType → Any) where
  -- The slot of a field after a write: `none` where the value does not fit the field's type.
  unfoldable pub fit : FieldMeta → Any → Option Any
  fit f none = elim f.go_type.kind [ nilable ↦ some (zero_of f.go_type) | _ ↦ none ]
  fit f (some v) =
      if str_eq v.type_of.name f.go_type.name
      then some (some v)
      else if is_numeric f.go_type.kind && is_numeric v.type_of.kind
      then some (some (convert f.go_type v))
      else none

  unfoldable pub write_slot : FieldMeta → Option Any → TypedRecord → TypedRecord
  unfolding clear_record_present
  write_slot f none r = clear_record_present f.db_name r
  write_slot f (some slot) r = record r {
    slots = insert f.db_name slot r.slots;
    present = insert f.db_name tt r.present;
  }

  abbrev pub sync_field : Option FieldMeta → Any → TypedRecord → TypedRecord
  sync_field none value r = r
  sync_field (some f) value r = write_slot f (fit f value) r

  -- What syncRecordField leaves in ctx.Record.
  unfoldable pub sync_record_field :
      Option ModelMeta → String → Any → Option TypedRecord → Option TypedRecord
  unfolding fit write_slot field_by_json_name
  sync_record_field model json_name value none = none
  sync_record_field model json_name value (some r) =
      some (sync_field (field_by_json_name (fields_of model) json_name) value r)

  abbrev pub clear_field : Option FieldMeta → TypedRecord → TypedRecord
  clear_field none r = r
  clear_field (some f) r = record r {
    slots = insert f.db_name (zero_of f.go_type) r.slots;
    present = delete f.db_name r.present;
  }

  module _ {D : Type 0} where
    -- The two writes that SetField and reassertServerSet share: the body, then the typed record.
    unfoldable pub write_through : String → Any → ServerContext D → ServerContext D
    unfolding sync_record_field
    write_through json_name value c = record c {
      parsed_body = some (insert json_name value (body_or_new c.parsed_body));
      bound_record = sync_record_field c.model json_name value c.bound_record;
    }

    unfoldable pub set_field : String → Any → ServerContext D → ServerContext D
    unfolding write_through
    set_field json_name value c =
        write_through json_name value
          (record c { server_set = insert json_name value c.server_set })

    unfoldable pub delete_field : String → ServerContext D → ServerContext D
    unfolding field_by_json_name
    delete_field json_name c = record c {
      parsed_body = delete_from json_name c.parsed_body;
      server_set = delete json_name c.server_set;
      bound_record = elim c.bound_record [
        | none ↦ none
        | some r ↦ some (clear_field (field_by_json_name (fields_of c.model) json_name) r)
      ];
    }

    -- The loop of reassertServerSet over the stamps.
    unfoldable pub reassert : Map Any → ServerContext D → ServerContext D
    unfolding write_through
    reassert [] c = c
    reassert ((jn, v) ∷ stamps) c = reassert stamps (write_through jn v c)

    unfoldable pub reassert_server_set : ServerContext D → ServerContext D
    unfolding reassert
    reassert_server_set c = reassert c.server_set c

    -- The loop of stripClientWrites over the model's fields.
    unfoldable pub strip_fields : List FieldMeta → ServerContext D → ServerContext D
    unfolding stripped_from_write delete_field
    strip_fields [] c = c
    strip_fields (f ∷ fs) c =
        strip_fields fs (if stripped_from_write c f then delete_field f.json_name c else c)

    unfoldable pub strip_client_writes : ServerContext D → ServerContext D
    unfolding strip_fields
    strip_client_writes c =
        if op_eq c.operation op_create || op_eq c.operation op_update
        then strip_fields (fields_of c.model) c
        else c
