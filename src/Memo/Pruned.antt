-- ===== src/Memo/Pruned.antt =====
-- cache.go: what pruning leaves of the entries.
use maniflex.Prelude.{
  ℕ, ◌≤◌, String, ◌≡◌, refl, ap, sym, ◌∙◌, inl, inr, true, false, Option, none, some, [], ◌∷◌,
  arith, str_eq, eq_iff, str_eq_refl, if◌then◌else◌, Bool-cases,
}
use maniflex.Request.Context.Map.{Map, lookup, insert, delete, has, has-delete}
use maniflex.Memo.MemoryCache.{CacheEntry, expired, prune}

module _ {V : Type 0} where
  -- What a get returns, of the entry that is there.
  abbrev pub visible : ℕ → Option (CacheEntry V) → Option V
  visible now none = none
  visible now (some e) = if expired now e then none else some e.value

  -- Each key is there once.
  abbrev pub Once : Map (CacheEntry V) → Type 0
  Once [] = Unit
  Once ((k, e) ∷ m) = (has k m ≡ false) × Once m

  pub lookup-absent : (k : String) (m : Map (CacheEntry V)) → has k m ≡ false → lookup k m ≡ none
  unfolding has lookup
  lookup-absent k [] h = refl
  lookup-absent k ((j, e) ∷ m) h = ground (arith, lookup-absent k m)

  pub delete-Once : (k : String) (m : Map (CacheEntry V)) → Once m → Once (delete k m)
  unfolding delete
  delete-Once k [] h = tt
  delete-Once k ((j, e) ∷ m) h = elim (Bool-cases (str_eq j k)) [
    | inl hit ↦ rw hit (delete-Once k m h.1)
    | inr miss ↦ rw miss (has-delete k j m ∙ ground (arith, h.0), delete-Once k m h.1)
  ]

  pub insert-Once :
      (k : String) (e : CacheEntry V) (m : Map (CacheEntry V)) → Once m → Once (insert k e m)
  unfolding insert
  insert-Once k e m h = (has-delete k k m ∙ rw (str_eq_refl k), delete-Once k m h)

  has-prune :
      (now : ℕ) (k : String) (m : Map (CacheEntry V))
      → has k m ≡ false
      → has k (prune now m) ≡ false
  unfolding prune has
  has-prune now k [] h = refl
  has-prune now k ((j, e) ∷ m) h = ground (arith, has-prune now k m)

  pub prune-Once : (now : ℕ) (m : Map (CacheEntry V)) → Once m → Once (prune now m)
  unfolding prune
  prune-Once now [] h = tt
  prune-Once now ((j, e) ∷ m) h = elim (Bool-cases (expired now e)) [
    | inl gone ↦ rw gone (prune-Once now m h.1)
    | inr kept ↦ rw kept (has-prune now j m h.0, prune-Once now m h.1)
  ]

  -- Nothing that can be seen from now on is pruned.
  pub visible-prune :
      (now t : ℕ) (k : String) (m : Map (CacheEntry V))
      → now ≤ t
      → Once m
      → visible t (lookup k (prune now m)) ≡ visible t (lookup k m)
  unfolding prune lookup
  visible-prune now t k [] h once = refl
  visible-prune now t k ((j, e) ∷ m) h once = elim (Bool-cases (expired now e)) [
    | inl gone ↦ elim (Bool-cases (str_eq j k)) [
      | inl hit ↦
          let is : j ≡ k = (eq_iff j k).0 hit in
          let absent : has k m ≡ false = ap (λ x. has x m) (sym is) ∙ once.0 in
          let later : expired t e ≡ true = ground arith in
          rw (gone, hit)
            (ap (visible t) (lookup-absent k (prune now m) (has-prune now k m absent)) ∙ rw later)
      | inr miss ↦ rw (gone, miss) (visible-prune now t k m h once.1)
    ]
    | inr kept ↦ elim (Bool-cases (str_eq j k)) [
      | inl hit ↦ rw (kept, hit)
      | inr miss ↦ rw (kept, miss) (visible-prune now t k m h once.1)
    ]
  ]
