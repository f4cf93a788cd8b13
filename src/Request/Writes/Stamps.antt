-- ===== src/Request/Writes/Stamps.antt =====
-- The stamps of the server outlast the client's body (typed_body.go, pipeline.go: serverSetChain).
use maniflex.Prelude.{
  String, ◌≡◌, refl, ◌∙◌, true, false, Option, none, some, [], ◌∷◌, arith, str_eq, str_eq_refl,
  eq_iff, if◌then◌else◌, ◌&&◌, any,
}
use maniflex.Request.Context.Map.{Map, has, delete, insert, lookup, lookup-insert, has-delete}
use maniflex.Request.Context.Types.{GoType, GoValue, Any, ServerContext}
use maniflex.Request.Context.Body.{
  write_through, server_set_field, reassert, reassert_server_set, strip_client_writes, fields_of,
  body_or_new,
}
use maniflex.Request.Writes.Strip.{value_at, strip_client_writes-keeps}

-- No key twice, as in a map.
abbrev pub IsDistinct {ℓ} : {V : Type ℓ} → Map V → Type 0
IsDistinct [] = Unit
IsDistinct ((k, v) ∷ m) = (has k m ≡ false) × IsDistinct m

abbrev pub or_else {ℓ} : {A : Type ℓ} → Option A → Option A → Option A
or_else none b = b
or_else (some a) b = some a

module _ {ℓ} {V : Type ℓ} where
  lookup_of_not-has : (k : String) (m : Map V) → has k m ≡ false → lookup k m ≡ none
  unfolding has lookup
  lookup_of_not-has k [] h = refl
  lookup_of_not-has k ((j, v) ∷ m) h = ground (arith, lookup_of_not-has k m)

  pub has_of_lookup : (k : String) (m : Map V) (v : V) → lookup k m ≡ some v → has k m ≡ true
  unfolding has lookup
  has_of_lookup k [] v h = cc
  has_of_lookup k ((j, w) ∷ m) v h = ground (arith, has_of_lookup k m v)

  IsDistinct-delete : (k : String) (m : Map V) → IsDistinct m → IsDistinct (delete k m)
  unfolding delete
  IsDistinct-delete k [] d = d
  IsDistinct-delete k ((j, v) ∷ m) d =
      ground (arith, IsDistinct-delete k m d.1, has-delete k j m, d.0)

  pub IsDistinct-insert :
      (k : String) (v : V) (m : Map V) → IsDistinct m → IsDistinct (insert k v m)
  unfolding insert
  IsDistinct-insert k v m d = (has-delete k k m ∙ rw str_eq_refl, IsDistinct-delete k m d)

value_at-insert :
    (k j : String) (v : Any) (b : Option (Map Any))
    → value_at j (some (insert k v (body_or_new b))) ≡ (if str_eq k j then some v else value_at j b)
unfolding lookup
value_at-insert k j v none = lookup-insert k j v []
value_at-insert k j v (some b) = lookup-insert k j v b

module _ (convert : GoType → GoValue → GoValue) (zero_of : GoType → Any) {D : Type 0} where
  value_at-write_through :
      (k j : String) (v : Any) (c : ServerContext D)
      → value_at j (write_through convert zero_of k v c).parsed_body
        ≡ (if str_eq k j then some v else value_at j c.parsed_body)
  unfolding write_through
  value_at-write_through k j v c = value_at-insert k j v c.parsed_body

  pub server_set-reassert :
      (m : Map Any) (c : ServerContext D) → (reassert convert zero_of m c).server_set ≡ c.server_set
  unfolding reassert
  server_set-reassert [] c = refl
  server_set-reassert ((k, v) ∷ m) c = server_set-reassert m (write_through convert zero_of k v c)

  pub model-reassert :
      (m : Map Any) (c : ServerContext D) → (reassert convert zero_of m c).model ≡ c.model
  unfolding reassert
  model-reassert [] c = refl
  model-reassert ((k, v) ∷ m) c = model-reassert m (write_through convert zero_of k v c)

  value_at-reassert :
      (m : Map Any) (c : ServerContext D) (j : String)
      → IsDistinct m
      → value_at j (reassert convert zero_of m c).parsed_body
        ≡ or_else (lookup j m) (value_at j c.parsed_body)
  unfolding reassert lookup
  value_at-reassert [] c j d = refl
  value_at-reassert ((k, v) ∷ m) c j d = ground (
    arith,
    value_at-reassert m (write_through convert zero_of k v c) j d.1,
    value_at-write_through k j v c,
    lookup_of_not-has k m d.0,
    eq_iff k j,
  )

  -- What the body holds after the stamps are written back: the stamp, where there is one, and else
  -- what the body held.
  pub reassert_server_set-value :
      (c : ServerContext D) (j : String)
      → IsDistinct c.server_set
      → value_at j (reassert_server_set convert zero_of c).parsed_body
        ≡ or_else (lookup j c.server_set) (value_at j c.parsed_body)
  unfolding reassert_server_set
  reassert_server_set-value c j d = value_at-reassert c.server_set c j d

  pub stamp_survives :
      (p : ServerContext D) (k : String) (v : Any)
      → IsDistinct p.server_set
      → lookup k p.server_set ≡ some v
      → any (λ f. str_eq f.db_name "id" && str_eq f.json_name k) (fields_of p.model) ≡ false
      → value_at k
          (strip_client_writes convert zero_of (reassert_server_set convert zero_of p)).parsed_body
        ≡ some v
  unfolding reassert_server_set server_set_field
  stamp_survives p k v d stamped other =
      strip_client_writes-keeps convert zero_of (reassert convert zero_of p.server_set p) k
        (rw server_set-reassert (has_of_lookup k p.server_set v stamped)) (rw model-reassert other)
      ∙ value_at-reassert p.server_set p k d
      ∙ rw stamped
