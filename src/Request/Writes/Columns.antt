-- ===== src/Request/Writes/Columns.antt =====
-- The typed record that the DB step writes from, behind the stamps and the strip (typed_body.go: SetField,
-- reassertServerSet; steps.go: stripClientWrites).
use maniflex.Prelude.{
  String, ◌≡◌, refl, sym, ap, inl, inr, ◌∙◌, true, false, Option, some, List, [], ◌∷◌, arith,
  str_eq, str_eq_refl, eq_iff, Bool-cases, Option-cases, ◌||◌, ◌&&◌, any,
}
use maniflex.Request.Operation.{op_update, op_create, op_eq}
use maniflex.Request.Context.Map.{Map, lookup, lookup-insert, insert}
use maniflex.Request.Context.Types.{
  GoType, GoValue, Any, FieldMeta, ModelMeta, TypedRecord, ServerContext, field_by_json_name,
}
use maniflex.Request.Context.Body.{
  fit, write_through, set_field, delete_field, reassert, reassert_server_set, stripped_from_write,
  strip_fields, strip_client_writes, server_set_field, fields_of,
}
use maniflex.Request.Writes.Strip.{value_at, strip_step, kept_at_step}
use maniflex.Request.Writes.Stamps.{
  IsDistinct, IsDistinct-insert, server_set-reassert, model-reassert, has_of_lookup, stamp_survives,
}
use maniflex.Request.Writes.Sync.{column, is_bound, IsOnly, clear_field-other, reassert-own}

module _ (convert : GoType → GoValue → GoValue) (zero_of : GoType → Any) (m : Option ModelMeta)
    (k : String) (f : FieldMeta) (only : IsOnly (fields_of m) k f.db_name) where
  module _ {D : Type 0} where
    model-strip_step :
        (g : FieldMeta) (c : ServerContext D) → (strip_step convert zero_of g c).model ≡ c.model
    unfolding strip_step delete_field
    model-strip_step g c = ground arith

    delete_field-other :
        (j : String) (c : ServerContext D)
        → c.model ≡ m
        → str_eq j k ≡ false
        → column f.db_name (delete_field convert zero_of j c).bound_record
          ≡ column f.db_name c.bound_record
    unfolding delete_field
    delete_field-other j c same h = elim (Option-cases c.bound_record) [
      | inl unbound ↦ simp (unbound) refl
      | inr (r, bound) ↦ simp (bound) (
          clear_field-other convert zero_of (field_by_json_name (fields_of c.model) j) r f.db_name
            (λ g is. only j g (ap (λ o. field_by_json_name (fields_of o) j) (sym same) ∙ is) h))
    ]

    spared :
        (g : FieldMeta) (c : ServerContext D)
        → server_set_field k c ≡ true
        → (str_eq g.db_name "id" && str_eq g.json_name k) ≡ false
        → stripped_from_write c g ≡ true
        → str_eq g.json_name k ≡ false
    unfolding stripped_from_write
    spared g c stamped other out = ground (arith, eq_iff g.json_name k)

    strip_step-other :
        (g : FieldMeta) (c : ServerContext D)
        → c.model ≡ m
        → server_set_field k c ≡ true
        → (str_eq g.db_name "id" && str_eq g.json_name k) ≡ false
        → column f.db_name (strip_step convert zero_of g c).bound_record
          ≡ column f.db_name c.bound_record
    unfolding strip_step
    strip_step-other g c same stamped other = elim (Bool-cases (stripped_from_write c g)) [
      | inr kept ↦ simp (kept) refl
      | inl out ↦ simp (out) (delete_field-other g.json_name c same (spared g c stamped other out))
    ]

    strip_fields-keeps_column :
        (fs : List FieldMeta) (c : ServerContext D)
        → c.model ≡ m
        → server_set_field k c ≡ true
        → any (λ g. str_eq g.db_name "id" && str_eq g.json_name k) fs ≡ false
        → column f.db_name (strip_fields convert zero_of fs c).bound_record
          ≡ column f.db_name c.bound_record
    unfolding strip_fields strip_step
    strip_fields-keeps_column [] c same stamped other = refl
    strip_fields-keeps_column (g ∷ gs) c same stamped other =
        let step = strip_step convert zero_of g c in
        strip_fields-keeps_column gs step (model-strip_step g c ∙ same)
          (kept_at_step convert zero_of g k c stamped (ground arith)).0 (ground arith)
        ∙ strip_step-other g c same stamped (ground arith)

    strip_client_writes-keeps_column :
        (c : ServerContext D)
        → c.model ≡ m
        → server_set_field k c ≡ true
        → any (λ g. str_eq g.db_name "id" && str_eq g.json_name k) (fields_of m) ≡ false
        → column f.db_name (strip_client_writes convert zero_of c).bound_record
          ≡ column f.db_name c.bound_record
    unfolding strip_client_writes
    strip_client_writes-keeps_column c same stamped other =
        let writes = op_eq c.operation op_create || op_eq c.operation op_update in
        elim (Bool-cases writes) [
          | inl w ↦ simp (w) (
              strip_fields-keeps_column (fields_of c.model) c same stamped (
                ap (λ o. any (λ g. str_eq g.db_name "id" && str_eq g.json_name k) (fields_of o))
                  same
                ∙ other))
          | inr w ↦ simp (w) refl
        ]

module _ (convert : GoType → GoValue → GoValue) (zero_of : GoType → Any) {D : Type 0} where
  stamp_in_column :
      (p : ServerContext D) (k : String) (v : Any) (f : FieldMeta) (slot : Any)
      → IsDistinct p.server_set
      → lookup k p.server_set ≡ some v
      → is_bound p.bound_record ≡ true
      → any (λ g. str_eq g.db_name "id" && str_eq g.json_name k) (fields_of p.model) ≡ false
      → field_by_json_name (fields_of p.model) k ≡ some f
      → IsOnly (fields_of p.model) k f.db_name
      → fit convert zero_of f v ≡ some slot
      → column f.db_name
          (strip_client_writes convert zero_of (reassert_server_set convert zero_of p)).bound_record
        ≡ some slot
  unfolding reassert_server_set server_set_field
  stamp_in_column p k v f slot d stamped bound other is only fits =
      let q = reassert convert zero_of p.server_set p in
      strip_client_writes-keeps_column convert zero_of p.model k f only q
        (model-reassert convert zero_of p.server_set p)
        (rw (server_set-reassert convert zero_of p.server_set p)
          (has_of_lookup k p.server_set v stamped))
        other
      ∙ reassert-own convert zero_of p.model k f only p.server_set p v slot refl d stamped is fits
          bound

  -- A value stamped with SetField before the body is parsed is the one that is left for the write,
  -- whatever body and record the client's request is parsed to: both replace those that SetField wrote
  -- to, the stamps are written back, and the strip of client writes spares them. It stands in the body
  -- under its key, and in the typed record as a present column, as the value that fits the field. The
  -- key names a field of the model, whose column is no other field's and which is not the generated id,
  -- and the value fits the field's type.
  pub stamp_outlasts_client :
      (c : ServerContext D) (k : String) (v : Any) (client : Option (Map Any)) (bound : TypedRecord)
      (f : FieldMeta) (slot : Any)
      → IsDistinct c.server_set
      → any (λ g. str_eq g.db_name "id" && str_eq g.json_name k) (fields_of c.model) ≡ false
      → field_by_json_name (fields_of c.model) k ≡ some f
      → IsOnly (fields_of c.model) k f.db_name
      → fit convert zero_of f v ≡ some slot
      → let parsed = record (set_field convert zero_of k v c) {
        parsed_body = client;
        bound_record = some bound;
      } in
        let left =
          strip_client_writes convert zero_of (reassert_server_set convert zero_of parsed) in
        (value_at k left.parsed_body ≡ some v) × (column f.db_name left.bound_record ≡ some slot)
  unfolding set_field write_through
  stamp_outlasts_client c k v client bound f slot d other is only fits =
      let parsed = record (set_field convert zero_of k v c) {
        parsed_body = client;
        bound_record = some bound;
      } in
      let distinct = IsDistinct-insert k v c.server_set d in
      let stamped : lookup k (insert k v c.server_set) ≡ some v =
        lookup-insert k k v c.server_set ∙ rw str_eq_refl in
      (
        stamp_survives convert zero_of parsed k v distinct stamped other,
        stamp_in_column parsed k v f slot distinct stamped refl other is only fits,
      )
