-- ===== src/Memo/Transparent.antt =====
-- cache.go: a MemoryCache against a dictionary that never forgets, with an expiry on each value.
use maniflex.Prelude.{
  ℕ, ◌+◌, ◌≤◌, String, ◌≡◌, refl, ap, sym, ◌∙◌, inl, inr, true, Option, none, some, List, [], ◌∷◌,
  arith, leb, str_eq, eq_iff, Bool-cases,
}
use maniflex.Request.Context.Map.{Map, lookup, insert, delete, has, lookup-delete, lookup-insert}
use maniflex.Memo.MemoryCache.{
  CacheEntry, MemoryCache, prune_every, new_cache, expired, on_hit, get, prune, count_insert, set,
  remove,
}
use maniflex.Memo.Pruned.{visible, Once, delete-Once, insert-Once, prune-Once, visible-prune}

-- A call, with the reading of the clock, and how much later the second reading of Set is.
pub data Call (V : Type 0) : Type 0 where
  gets : String → Call V
  sets : (lag : ℕ) → String → V → (ttl : ℕ) → Call V
  removes : String → Call V

module _ {V : Type 0} where
  abbrev pub apply_call : ℕ → Call V → MemoryCache V → MemoryCache V × Option V
  apply_call now (gets k) m = get now k m
  apply_call now (sets lag k v ttl) m = (set now (now + lag) k v ttl m, none)
  apply_call now (removes k) m = (remove k m, none)

  -- The dictionary: a get changes nothing, and nothing is pruned.
  abbrev pub apply_reference : ℕ → Call V → Map (CacheEntry V) → Map (CacheEntry V) × Option V
  apply_reference now (gets k) d = (d, visible now (lookup k d))
  apply_reference now (sets lag k v ttl) d =
      (insert k (record { value = v; expires_at = now + lag + ttl }) d, none)
  apply_reference now (removes k) d = (delete k d, none)

  -- The answers to a history of calls.
  unfoldable pub answers : List (ℕ × Call V) → MemoryCache V → List (Option V)
  answers [] m = []
  answers ((now, call) ∷ calls) m =
      let (m', answer) = apply_call now call m in answer ∷ answers calls m'

  unfoldable pub reference_answers : List (ℕ × Call V) → Map (CacheEntry V) → List (Option V)
  reference_answers [] d = []
  reference_answers ((now, call) ∷ calls) d =
      let (d', answer) = apply_reference now call d in answer ∷ reference_answers calls d'

  -- The clock does not go back.
  abbrev pub InOrder : ℕ → List (ℕ × Call V) → Type 0
  InOrder start [] = Unit
  InOrder start ((now, call) ∷ calls) = (start ≤ now) × InOrder now calls

  -- A cache shows what the dictionary shows, from an instant on.
  record Shows (start : ℕ) (m d : Map (CacheEntry V)) : Type 0 where
    once : Once m
    same : (t : ℕ) (k : String) → start ≤ t → visible t (lookup k m) ≡ visible t (lookup k d)

  Shows-later :
      (start now : ℕ) (m d : Map (CacheEntry V)) → start ≤ now → Shows start m d → Shows now m d
  Shows-later start now m d h r = record {
    once = r.once;
    same = λ t k after. r.same t k (omega arith);
  }

  Shows-delete :
      (now : ℕ) (key : String) (m d : Map (CacheEntry V))
      → Shows now m d
      → Shows now (delete key m) (delete key d)
  Shows-delete now key m d r = record {
    once = delete-Once key m r.once;
    same = λ t k after. elim (Bool-cases (str_eq key k)) [
      | inl hit ↦ rw (lookup-delete key k m, lookup-delete key k d) (rw hit)
      | inr miss ↦ rw (lookup-delete key k m, lookup-delete key k d) (rw miss (r.same t k after))
    ];
  }

  Shows-insert :
      (now : ℕ) (key : String) (e : CacheEntry V) (m d : Map (CacheEntry V))
      → Shows now m d
      → Shows now (insert key e m) (insert key e d)
  Shows-insert now key e m d r = record {
    once = insert-Once key e m r.once;
    same = λ t k after. elim (Bool-cases (str_eq key k)) [
      | inl hit ↦ rw (lookup-insert key k e m, lookup-insert key k e d) (rw hit)
      | inr miss ↦
          rw (lookup-insert key k e m, lookup-insert key k e d) (rw miss (r.same t k after))
    ];
  }

  Shows-prune : (now : ℕ) (m d : Map (CacheEntry V)) → Shows now m d → Shows now (prune now m) d
  Shows-prune now m d r = record {
    once = prune-Once now m r.once;
    same = λ t k after. visible-prune now t k m after r.once ∙ r.same t k after;
  }

  -- The lazy eviction of a get hides nothing.
  Shows-evict :
      (now : ℕ) (key : String) (e : CacheEntry V) (m d : Map (CacheEntry V))
      → lookup key m ≡ some e
      → expired now e ≡ true
      → Shows now m d
      → Shows now (delete key m) d
  Shows-evict now key e m d found gone r = record {
    once = delete-Once key m r.once;
    same = λ t k after. elim (Bool-cases (str_eq key k)) [
      | inl hit ↦
          let is : key ≡ k = (eq_iff key k).0 hit in
          let later : expired t e ≡ true = ground arith in
          let hidden : visible t (lookup k m) ≡ none =
            ap (λ x. visible t (lookup x m)) (sym is) ∙ ap (visible t) found ∙ rw later in
          rw (lookup-delete key k m) (rw hit (sym hidden ∙ r.same t k after))
      | inr miss ↦ rw (lookup-delete key k m) (rw miss (r.same t k after))
    ];
  }

  on_hit-Shows :
      (now : ℕ) (key : String) (m : MemoryCache V) (d : Map (CacheEntry V))
      (found : Option (CacheEntry V))
      → lookup key m.entries ≡ found
      → Shows now m.entries d
      → Shows now (on_hit now key m found).0.entries d
        × ((on_hit now key m found).1 ≡ visible now (lookup key d))
  on_hit-Shows now key m d none is r = (r, sym (ap (visible now) is) ∙ r.same now key (omega arith))
  on_hit-Shows now key m d (some e) is r = elim (Bool-cases (expired now e)) [
    | inl gone ↦
        let none_seen : visible now (some e) ≡ none = rw gone in
        rw gone (
          Shows-evict now key e m.entries d is gone r,
          sym none_seen ∙ sym (ap (visible now) is) ∙ r.same now key (omega arith),
        )
    | inr live ↦
        let seen : visible now (some e) ≡ some e.value = rw live in
        rw live (r, sym seen ∙ sym (ap (visible now) is) ∙ r.same now key (omega arith))
  ]

  count_insert-Shows :
      (now : ℕ) (m : MemoryCache V) (d : Map (CacheEntry V))
      → Shows now m.entries d
      → Shows now (count_insert now m).entries d
  count_insert-Shows now m d r = elim (Bool-cases (leb prune_every (m.inserts + 1))) [
    | inl full ↦ rw full (Shows-prune now m.entries d r)
    | inr room ↦ rw room r
  ]

  apply_call-Shows :
      (now : ℕ) (call : Call V) (m : MemoryCache V) (d : Map (CacheEntry V))
      → Shows now m.entries d
      → Shows now (apply_call now call m).0.entries (apply_reference now call d).0
        × ((apply_call now call m).1 ≡ (apply_reference now call d).1)
  unfolding get set remove
  apply_call-Shows now (gets k) m d r = on_hit-Shows now k m d (lookup k m.entries) refl r
  apply_call-Shows now (removes k) m d r = (Shows-delete now k m.entries d r, refl)
  apply_call-Shows now (sets lag k v ttl) m d r =
      let e : CacheEntry V = record { value = v; expires_at = now + lag + ttl } in
      elim (Bool-cases (has k m.entries)) [
        | inl there ↦ rw there (Shows-insert now k e m.entries d r, refl)
        | inr fresh ↦ rw fresh (
          Shows-insert now k e (count_insert now m).entries d (count_insert-Shows now m d r),
          refl,
        )
      ]

  answers-Shows :
      (start : ℕ) (calls : List (ℕ × Call V)) (m : MemoryCache V) (d : Map (CacheEntry V))
      → InOrder start calls
      → Shows start m.entries d
      → answers calls m ≡ reference_answers calls d
  unfolding answers reference_answers
  answers-Shows start [] m d order r = refl
  answers-Shows start ((now, call) ∷ calls) m d (before, order) r =
      let (r', same) = apply_call-Shows now call m d (Shows-later start now m.entries d before r) in
      rw same (
        ap (λ rest. (apply_reference now call d).1 ∷ rest)
          (answers-Shows now calls (apply_call now call m).0 (apply_reference now call d).0 order
            r'))

  -- Pruning and lazy eviction are not seen: whatever calls are made, at readings of the clock that do not
  -- go back, the cache gives the answers of a dictionary that forgets nothing and looks at the expiry of
  -- a value only when it is asked for.
  pub answers-new_cache :
      (calls : List (ℕ × Call V))
      → InOrder 0 calls
      → answers calls new_cache ≡ reference_answers calls []
  unfolding new_cache
  answers-new_cache calls order =
      answers-Shows 0 calls new_cache [] order (record { once = tt; same = λ t k after. refl })
