-- ===== src/Request/Writes/Sync.antt =====
-- What a write through to the typed record does to its columns (typed_body.go: syncRecordField,
-- DeleteField, reassertServerSet).
use maniflex.Prelude.{
  String, ◌≡◌, refl, sym, ap, inl, inr, ◌∙◌, Bool, true, false, Option, none, some, List, [], ◌∷◌,
  arith, str_eq, str_eq_refl, eq_iff, Bool-cases, if◌then◌else◌,
}
use maniflex.Request.Context.Map.{Map, has, has-delete, has-insert, lookup, lookup-insert}
use maniflex.Request.Context.Types.{
  GoType, GoValue, Any, FieldMeta, ModelMeta, TypedRecord, ServerContext, field_by_json_name,
}
use maniflex.Request.Context.Body.{
  fit, write_slot, sync_field, sync_record_field, clear_field, clear_record_present, write_through,
  reassert, fields_of,
}
use maniflex.Request.Writes.Stamps.{IsDistinct}

-- What a record writes to a column: its slot, where the column is present.
abbrev pub column_of : String → TypedRecord → Option Any
column_of db r = if has db r.present then lookup db r.slots else none

abbrev pub column : String → Option TypedRecord → Option Any
column db none = none
column db (some r) = column_of db r

abbrev pub is_bound : Option TypedRecord → Bool
is_bound none = false
is_bound (some r) = true

module _ (convert : GoType → GoValue → GoValue) (zero_of : GoType → Any) where
  write_slot-other :
      (g : FieldMeta) (slot : Option Any) (r : TypedRecord) (db : String)
      → str_eq g.db_name db ≡ false
      → column_of db (write_slot convert zero_of g slot r) ≡ column_of db r
  unfolding write_slot clear_record_present
  write_slot-other g none r db h = ground (arith, has-delete g.db_name db r.present)
  write_slot-other g (some s) r db h =
      ground (arith, has-insert g.db_name db tt r.present, lookup-insert g.db_name db s r.slots)

  sync_field-other :
      (o : Option FieldMeta) (v : Any) (r : TypedRecord) (db : String)
      → ((g : FieldMeta) → o ≡ some g → str_eq g.db_name db ≡ false)
      → column_of db (sync_field convert zero_of o v r) ≡ column_of db r
  sync_field-other none v r db h = refl
  sync_field-other (some g) v r db h = write_slot-other g (fit convert zero_of g v) r db (h g refl)

  pub clear_field-other :
      (o : Option FieldMeta) (r : TypedRecord) (db : String)
      → ((g : FieldMeta) → o ≡ some g → str_eq g.db_name db ≡ false)
      → column_of db (clear_field convert zero_of o r) ≡ column_of db r
  clear_field-other none r db h = refl
  clear_field-other (some g) r db h = ground (
    arith,
    h g refl,
    has-delete g.db_name db r.present,
    lookup-insert g.db_name db (zero_of g.go_type) r.slots,
  )

  write_slot-own :
      (f : FieldMeta) (slot : Any) (r : TypedRecord)
      → column_of f.db_name (write_slot convert zero_of f (some slot) r) ≡ some slot
  unfolding write_slot
  write_slot-own f slot r = ground (
    arith,
    str_eq_refl f.db_name,
    has-insert f.db_name f.db_name tt r.present,
    lookup-insert f.db_name f.db_name slot r.slots,
  )

  is_bound-sync :
      (m : Option ModelMeta) (j : String) (v : Any) (b : Option TypedRecord)
      → is_bound (sync_record_field convert zero_of m j v b) ≡ is_bound b
  unfolding sync_record_field
  is_bound-sync m j v none = refl
  is_bound-sync m j v (some r) = refl

-- No key but k is the name of a field with the column db.
abbrev pub IsOnly : List FieldMeta → String → String → Type 0
IsOnly fs k db =
    (j : String) (g : FieldMeta)
    → field_by_json_name fs j ≡ some g
    → str_eq j k ≡ false
    → str_eq g.db_name db ≡ false

module _ (convert : GoType → GoValue → GoValue) (zero_of : GoType → Any) (m : Option ModelMeta)
    (k : String) (f : FieldMeta) (only : IsOnly (fields_of m) k f.db_name) where
  sync-other :
      (j : String) (v : Any) (b : Option TypedRecord)
      → str_eq j k ≡ false
      → column f.db_name (sync_record_field convert zero_of m j v b) ≡ column f.db_name b
  unfolding sync_record_field
  sync-other j v none h = refl
  sync-other j v (some r) h =
      sync_field-other convert zero_of (field_by_json_name (fields_of m) j) v r f.db_name
        (λ g is. only j g is h)

  sync-own :
      (v slot : Any) (b : Option TypedRecord)
      → field_by_json_name (fields_of m) k ≡ some f
      → fit convert zero_of f v ≡ some slot
      → is_bound b ≡ true
      → column f.db_name (sync_record_field convert zero_of m k v b) ≡ some slot
  unfolding sync_record_field
  sync-own v slot none is fits bound = cc
  sync-own v slot (some r) is fits bound =
      ap (λ o. column_of f.db_name (sync_field convert zero_of o v r)) is
      ∙ ap (λ s. column_of f.db_name (write_slot convert zero_of f s r)) fits
      ∙ write_slot-own convert zero_of f slot r

  module _ {D : Type 0} where
    bound-write_through :
        (j : String) (v : Any) (c : ServerContext D)
        → c.model ≡ m
        → (write_through convert zero_of j v c).bound_record
          ≡ sync_record_field convert zero_of m j v c.bound_record
    unfolding write_through
    bound-write_through j v c same =
        ap (λ o. sync_record_field convert zero_of o j v c.bound_record) same

    model-write_through :
        (j : String) (v : Any) (c : ServerContext D)
        → (write_through convert zero_of j v c).model ≡ c.model
    unfolding write_through
    model-write_through j v c = refl

    reassert-other :
        (stamps : Map Any) (c : ServerContext D)
        → c.model ≡ m
        → has k stamps ≡ false
        → column f.db_name (reassert convert zero_of stamps c).bound_record
          ≡ column f.db_name c.bound_record
    unfolding reassert has
    reassert-other [] c same h = refl
    reassert-other ((j, v) ∷ stamps) c same h =
        reassert-other stamps (write_through convert zero_of j v c)
          (model-write_through j v c ∙ same) (ground arith)
        ∙ ap (column f.db_name) (bound-write_through j v c same)
        ∙ sync-other j v c.bound_record (ground arith)

    pub reassert-own :
        (stamps : Map Any) (c : ServerContext D) (v slot : Any)
        → c.model ≡ m
        → IsDistinct stamps
        → lookup k stamps ≡ some v
        → field_by_json_name (fields_of m) k ≡ some f
        → fit convert zero_of f v ≡ some slot
        → is_bound c.bound_record ≡ true
        → column f.db_name (reassert convert zero_of stamps c).bound_record ≡ some slot
    unfolding reassert lookup
    reassert-own [] c v slot same d h is fits bound = cc
    reassert-own ((j, w) ∷ stamps) c v slot same d h is fits bound =
        let c' = write_through convert zero_of j w c in
        let same' = model-write_through j w c ∙ same in
        elim (Bool-cases (str_eq j k)) [
          | inr other ↦ reassert-own stamps c' v slot same' d.1 (simp (other) at h) is fits (
              ap is_bound (bound-write_through j w c same)
              ∙ is_bound-sync convert zero_of m j w c.bound_record
              ∙ bound)
          | inl own ↦
              let key : j ≡ k = ground (arith, eq_iff j k) in
              let value : w ≡ v = cc (simp (own) at h) in
              reassert-other stamps c' same' (rw (sym key) (d.0))
              ∙ ap (column f.db_name) (bound-write_through j w c same)
              ∙ ap (λ i. column f.db_name (sync_record_field convert zero_of m i w c.bound_record))
                  key
              ∙ sync-own w slot c.bound_record is (rw value fits) bound
        ]
