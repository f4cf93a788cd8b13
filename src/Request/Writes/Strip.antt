-- ===== src/Request/Writes/Strip.antt =====
-- The strip of client writes.
use maniflex.Prelude.{
  String, ◌≡◌, refl, inl, inr, ◌∙◌, Bool, true, false, Option, none, some, List, [], ◌∷◌, arith,
  str_eq, eq_iff, Bool-cases, if◌then◌else◌, ◌||◌, ◌&&◌, any,
}
use maniflex.Request.Operation.{op_update, op_create, op_eq}
use maniflex.Request.Context.Map.{Map, has, has-delete, lookup, lookup-delete}
use maniflex.Request.Context.Types.{GoType, GoValue, Any, FieldMeta, ServerContext}
use maniflex.Request.Context.Body.{
  stripped_from_write, delete_field, strip_fields, strip_client_writes, server_set_field, fields_of,
  delete_from,
}

-- Whether a body holds a key, and the value there.
abbrev pub holds : String → Option (Map Any) → Bool
holds j none = false
holds j (some b) = has j b

abbrev pub value_at : String → Option (Map Any) → Option Any
value_at j none = none
value_at j (some b) = lookup j b

value_at-delete_from :
    (k j : String) (o : Option (Map Any))
    → value_at j (delete_from k o) ≡ (if str_eq k j then none else value_at j o)
value_at-delete_from k j none = ground arith
value_at-delete_from k j (some b) = lookup-delete k j b

module _ (convert : GoType → GoValue → GoValue) (zero_of : GoType → Any) {D : Type 0} where
  abbrev del : String → ServerContext D → ServerContext D
  del = delete_field convert zero_of

  value_at-delete_field :
      (k j : String) (c : ServerContext D)
      → value_at j (del k c).parsed_body ≡ (if str_eq k j then none else value_at j c.parsed_body)
  unfolding delete_field
  value_at-delete_field k j c = value_at-delete_from k j c.parsed_body

  stamped-delete_field :
      (k j : String) (c : ServerContext D)
      → server_set_field j (del k c) ≡ (if str_eq k j then false else server_set_field j c)
  unfolding delete_field server_set_field
  stamped-delete_field k j c = has-delete k j c.server_set

  -- One turn of the loop.
  unfoldable pub strip_step : FieldMeta → ServerContext D → ServerContext D
  strip_step f c = if stripped_from_write c f then del f.json_name c else c

  model-strip_fields :
      (fs : List FieldMeta) (c : ServerContext D)
      → (strip_fields convert zero_of fs c).model ≡ c.model
  unfolding strip_fields delete_field
  model-strip_fields [] c = refl
  model-strip_fields (f ∷ fs) c = model-strip_fields fs _ ∙ ground arith

  -- A key that is stamped, and is no generated id, keeps its value.
  pub kept_at_step :
      (f : FieldMeta) (j : String) (c : ServerContext D)
      → server_set_field j c ≡ true
      → (str_eq f.db_name "id" && str_eq f.json_name j) ≡ false
      → (server_set_field j (strip_step f c) ≡ true)
        × (value_at j (strip_step f c).parsed_body ≡ value_at j c.parsed_body)
  unfolding strip_step stripped_from_write
  kept_at_step f j c stamped other = ground (
    arith,
    value_at-delete_field f.json_name j c,
    stamped-delete_field f.json_name j c,
    eq_iff f.json_name j,
  )

  kept_by_strip :
      (fs : List FieldMeta) (j : String) (c : ServerContext D)
      → server_set_field j c ≡ true
      → any (λ f. str_eq f.db_name "id" && str_eq f.json_name j) fs ≡ false
      → value_at j (strip_fields convert zero_of fs c).parsed_body ≡ value_at j c.parsed_body
  unfolding strip_fields strip_step
  kept_by_strip [] j c stamped other = refl
  kept_by_strip (f ∷ fs) j c stamped other =
      let (still, same) = kept_at_step f j c stamped (ground arith) in
      kept_by_strip fs j (strip_step f c) still (ground arith) ∙ same

  -- A value that the server stamped is in the body after the strip as it was before it, unless its
  -- key is the generated id's.
  pub strip_client_writes-keeps :
      (c : ServerContext D) (j : String)
      → server_set_field j c ≡ true
      → any (λ f. str_eq f.db_name "id" && str_eq f.json_name j) (fields_of c.model) ≡ false
      → value_at j (strip_client_writes convert zero_of c).parsed_body ≡ value_at j c.parsed_body
  unfolding strip_client_writes
  strip_client_writes-keeps c j stamped other =
      elim (Bool-cases (op_eq c.operation op_create || op_eq c.operation op_update)) [
        | inl w ↦ rw w (kept_by_strip (fields_of c.model) j c stamped other)
        | inr w ↦ rw w
      ]
