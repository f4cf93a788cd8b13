-- ===== src/Events/Dedupe.antt =====
-- events/dedupe.go: InMemoryDedupeStore and Dedupe over it.
--
-- Instants and the ttl are numbers of nanoseconds; a negative maxSize acts as 0 does. The order of the
-- map is the order that the eviction ranges in. Release of the in-memory store never fails.
use maniflex.Prelude.{
  ℕ, suc, ◌+◌, ◌≤◌, ◌<◌, String, ◌≡◌, refl, sym, ◌∙◌, ◌⊎◌, inl, inr, Bool, true, false, ◌||◌,
  Option, none, some, [], ◌∷◌, arith, ltb, leb, str_eq, str_eq_refl, eq_iff, lt→ltb, if◌then◌else◌,
  Bool-cases, length,
}
use maniflex.Request.Context.Map.{Map, lookup, insert, delete, has, lookup-insert, lookup-delete}

pub record DedupeStore : Type 0 where
  pub seen : Map ℕ
  pub max_size : ℕ
  pub ttl : ℕ

-- if oldestKey == "" || v.Before(oldestTime)
abbrev pub older : String × ℕ → String × ℕ → String × ℕ
older (oldest_key, oldest_time) (k, v) =
    if str_eq oldest_key "" || ltb v oldest_time then (k, v) else (oldest_key, oldest_time)

unfoldable pub oldest_loop : String × ℕ → Map ℕ → String × ℕ
oldest_loop oldest [] = oldest
oldest_loop oldest (x ∷ m) = oldest_loop (older oldest x) m

unfoldable pub evict : ℕ → Map ℕ → Map ℕ
unfolding oldest_loop
evict max_size m = if leb max_size (length m) then delete (oldest_loop ("", 0) m).0 m else m

-- The entry of the id, where it has not expired.
abbrev pub is_live : ℕ → ℕ → Option ℕ → Bool
is_live now ttl none = false
is_live now ttl (some t) = ltb now (t + ttl)

unfoldable pub seen : ℕ → String → DedupeStore → DedupeStore × Bool
unfolding evict
seen now id s =
    if is_live now s.ttl (lookup id s.seen)
    then (s, true)
    else (record s { seen = insert id now (evict s.max_size (delete id s.seen)) }, false)

unfoldable pub release : String → DedupeStore → DedupeStore
release id s = record s { seen = delete id s.seen }

-- The handler that Dedupe wraps: it is called with the state it acts on, and returns its error.
abbrev pub Handler : Type 0 → Type 0
Handler W = W → W × Option String

abbrev pub after_handler :
    {W : Type 0} → String → DedupeStore → W × Option String → DedupeStore × W × Option String
after_handler id s (w, none) = (s, w, none)
after_handler id s (w, some e) = (release id s, w, some e)

unfoldable pub dedupe :
    {W : Type 0} → Handler W → ℕ → String → DedupeStore → W → DedupeStore × W × Option String
dedupe handler now id s w =
    let (s', duplicate) = seen now id s in
    if duplicate then (s', w, none) else after_handler id s' (handler w)

pub length-delete : (k : String) (m : Map ℕ) → length (delete k m) ≤ length m
unfolding delete
length-delete k [] = omega arith
length-delete k ((j, v) ∷ m) = ground (arith, length-delete k m)

pub length-delete-has :
    (k : String) (m : Map ℕ) → has k m ≡ true → length (delete k m) + 1 ≤ length m
unfolding delete has
length-delete-has k [] h = cc
length-delete-has k ((j, v) ∷ m) h = ground (arith, length-delete k m, length-delete-has k m)

-- The key that the loop ends with is the one it started with, or a key of the map.
pub oldest_loop-has :
    (o : String × ℕ) (m : Map ℕ) → ((oldest_loop o m).0 ≡ o.0) ⊎ (has (oldest_loop o m).0 m ≡ true)
unfolding oldest_loop has
oldest_loop-has o [] = inl refl
oldest_loop-has o ((k, v) ∷ m) = elim (oldest_loop-has (older o (k, v)) m) [
  | inr inside ↦ inr (ground (arith, inside))
  | inl kept ↦ elim (Bool-cases (str_eq o.0 "" || ltb v o.1)) [
    | inl replaced ↦
        let is : (oldest_loop (older o (k, v)) m).0 ≡ k = kept ∙ (rw replaced refl) in
        inr (rw ((eq_iff k (oldest_loop (older o (k, v)) m).0).1 (sym is)) refl)
    | inr stays ↦ inl (kept ∙ (rw stays refl))
  ]
]

pub length-evict :
    (max_size : ℕ) (m : Map ℕ)
    → 0 < max_size
    → length m ≤ max_size
    → length (evict max_size m) + 1 ≤ max_size
unfolding evict oldest_loop has
length-evict max_size [] some_room fits = ground arith
length-evict max_size ((k, v) ∷ m) some_room fits =
    elim (Bool-cases (leb max_size (suc (length m)))) [
      | inr below ↦ rw below (ground arith)
      | inl full ↦
          let key = (oldest_loop (k, v) m).0 in
          let inside : has key ((k, v) ∷ m) ≡ true = elim (oldest_loop-has (k, v) m) [
            | inl first ↦ rw ((eq_iff k key).1 (sym first)) refl
            | inr later ↦ ground (arith, later)
          ] in
          rw full (omega (arith, length-delete-has key ((k, v) ∷ m) inside, fits))
    ]

-- The store never holds more than maxSize ids, where maxSize is at least 1.
pub seen-bound :
    (now : ℕ) (id : String) (s : DedupeStore)
    → 0 < s.max_size
    → length s.seen ≤ s.max_size
    → length (seen now id s).0.seen ≤ s.max_size
unfolding seen insert
seen-bound now id s some_room fits = elim (Bool-cases (is_live now s.ttl (lookup id s.seen))) [
  | inl live ↦ simp (live) fits
  | inr fresh ↦
      let m = delete id s.seen in
      simp (fresh) (
        omega (
          arith,
          length-delete id (evict s.max_size m),
          length-evict s.max_size m some_room (omega (arith, length-delete id s.seen, fits)),
        ))
]

-- A new id is recorded with the time it was seen at.
pub seen-records :
    (now : ℕ) (id : String) (s : DedupeStore)
    → (seen now id s).1 ≡ false
    → (lookup id (seen now id s).0.seen ≡ some now) × ((seen now id s).0.ttl ≡ s.ttl)
unfolding seen
seen-records now id s fresh = elim (Bool-cases (is_live now s.ttl (lookup id s.seen))) [
  | inl live ↦ cc (simp (live) at fresh)
  | inr new ↦ simp (new) (
    lookup-insert id id now (evict s.max_size (delete id s.seen)) ∙ rw (str_eq_refl id) refl,
    refl,
  )
]

pub seen-again :
    (later now : ℕ) (id : String) (s : DedupeStore)
    → lookup id s.seen ≡ some now
    → later < now + s.ttl
    → seen later id s ≡ (s, true)
unfolding seen
seen-again later now id s there soon = simp (there, lt→ltb later (now + s.ttl) soon) refl

pub seen-release :
    (later : ℕ) (id : String) (s : DedupeStore) → (seen later id (release id s)).1 ≡ false
unfolding seen release
seen-release later id s = simp (lookup-delete id id s.seen, str_eq_refl id) refl

-- An event that was handled is not handled again: after a delivery that ended without an error, a
-- second one of the same id that comes before the ttl is over leaves the store and the state alone.
pub dedupe_drops :
    {W : Type 0} (handler again : Handler W) (now later : ℕ) (id : String) (s : DedupeStore)
    (w v : W)
    → (seen now id s).1 ≡ false
    → handler w ≡ (v, none)
    → later < now + s.ttl
    → (dedupe handler now id s w ≡ ((seen now id s).0, v, none))
      × (dedupe again later id (seen now id s).0 v ≡ ((seen now id s).0, v, none))
unfolding dedupe
dedupe_drops handler again now later id s w v fresh ran soon =
    let (recorded, same_ttl) = seen-records now id s fresh in
    (
      simp (fresh, ran) refl,
      simp (seen-again later now id (seen now id s).0 recorded (omega (arith, same_ttl, soon)))
          refl,
    )

pub after_handler-failed :
    {W : Type 0} (id e : String) (s : DedupeStore) (r : W × Option String)
    → (after_handler id s r).2 ≡ some e
    → (after_handler id s r).0 ≡ release id s
after_handler-failed id e s (w, none) h = cc
after_handler-failed id e s (w, some x) h = refl

-- An event whose handler failed is not lost: after a delivery that ended with an error, the next
-- delivery of the same id is not taken for a duplicate, whenever it comes.
pub dedupe_retries :
    {W : Type 0} (handler : Handler W) (now later : ℕ) (id e : String) (s : DedupeStore) (w : W)
    → (dedupe handler now id s w).2 ≡ some e
    → (seen later id (dedupe handler now id s w).0).1 ≡ false
unfolding dedupe
dedupe_retries handler now later id e s w failed = elim (Bool-cases (seen now id s).1) [
  | inl duplicate ↦ cc (simp (duplicate) at failed)
  | inr fresh ↦
      let released =
        after_handler-failed id e (seen now id s).0 (handler w) (simp (fresh) at failed) in
      simp (fresh, released) (seen-release later id (seen now id s).0)
]
