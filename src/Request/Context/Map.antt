-- ===== src/Request/Context/Map.antt =====
-- Go's map with string keys, as an association list. The order of iteration is not modelled.
use maniflex.Prelude.{
  String, ◌≡◌, Bool, true, false, Option, none, some, List, [], ◌∷◌, arith, str_eq, eq_iff,
  if◌then◌else◌,
}

abbrev pub Map {ℓ} : Type ℓ → Type ℓ
Map V = List (String × V)

module _ {ℓ} {V : Type ℓ} where
  -- v, ok := m[k]
  unfoldable pub lookup : String → Map V → Option V
  lookup k [] = none
  lookup k ((j, v) ∷ m) = if str_eq j k then some v else lookup k m

  -- delete(m, k)
  unfoldable pub delete : String → Map V → Map V
  delete k [] = []
  delete k ((j, v) ∷ m) = let rest = delete k m in if str_eq j k then rest else (j, v) ∷ rest

  -- m[k] = v
  unfoldable pub insert : String → V → Map V → Map V
  insert k v m = (k, v) ∷ delete k m

  -- _, ok := m[k]
  unfoldable pub has : String → Map V → Bool
  has k [] = false
  has k ((j, v) ∷ m) = if str_eq j k then true else has k m

  pub lookup-delete :
      (k j : String) (m : Map V) → lookup j (delete k m) ≡ (if str_eq k j then none else lookup j m)
  unfolding lookup delete
  lookup-delete k j [] = ground arith
  lookup-delete k j ((i, v) ∷ m) =
      ground (arith, lookup-delete k j m, eq_iff i k, eq_iff i j, eq_iff k j)

  pub lookup-insert :
      (k j : String) (v : V) (m : Map V)
      → lookup j (insert k v m) ≡ (if str_eq k j then some v else lookup j m)
  unfolding lookup insert
  lookup-insert k j v m = ground (arith, lookup-delete k j m)

  pub has-delete :
      (k j : String) (m : Map V) → has j (delete k m) ≡ (if str_eq k j then false else has j m)
  unfolding has delete
  has-delete k j [] = ground arith
  has-delete k j ((i, v) ∷ m) = ground (arith, has-delete k j m, eq_iff i k, eq_iff i j, eq_iff k j)

  pub has-insert :
      (k j : String) (v : V) (m : Map V)
      → has j (insert k v m) ≡ (if str_eq k j then true else has j m)
  unfolding has insert
  has-insert k j v m = ground (arith, has-delete k j m)

pub ruleset map_laws = (lookup-delete, lookup-insert, has-delete, has-insert)
