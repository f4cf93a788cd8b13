-- ===== src/Idempotency/Defs.antt =====
-- middleware/idempotency/idempotency.go: Middleware and replayCached.
--
-- `W` is the world: the cache, the locks, and whatever the rest of the pipeline acts on. Store and Locker
-- are records of operations, as the interfaces of the code are; a Locker that blocks answers with the
-- world in which its wait has ended. `hash` is the SHA-256 of a body in hexadecimal, and `body` what
-- EnsureRawBody reads, or how it aborts the request. `P` is the type of a response's Data and Meta, and `D`
-- the rest of the context. The header of a replay is a field, and StoredAt is not kept.
use maniflex.Prelude.{
  ℕ, ◌*◌, String, Bool, true, false, not, ◌||◌, Option, none, some, List, [], ◌∷◌, ◌++◌, ltb, leb,
  str_eq, if◌then◌else◌, any, filter,
}
use maniflex.Prelude.Bytes.{Bytes, codes}

-- An APIResponse; its error is the code of the APIError.
pub record Response (P : Type 0) : Type 0 where
  pub status_code : ℕ
  pub data_of : Option P
  pub error : Option String
  pub meta : Option P
  pub as_is : Bool
  pub dir : String

-- What ctx.Abort answers.
abbrev pub refusal : {P : Type 0} → ℕ → String → Response P
refusal status code = record {
  status_code = status;
  data_of = none;
  error = some code;
  meta = none;
  as_is = false;
  dir = "";
}

-- The APIResponse literal of Middleware and of replayCached, which copies four of the fields.
abbrev pub snapshot : {P : Type 0} → Response P → Response P
snapshot r = record {
  status_code = r.status_code;
  data_of = r.data_of;
  error = r.error;
  meta = r.meta;
  as_is = false;
  dir = "";
}

pub data Body (P : Type 0) : Type 0 where
  readable : Bytes → Body P
  unreadable : Response P → Body P

pub record IdempotencyContext (P D : Type 0) : Type 0 where
  pub header : String
  pub user_id : Option String
  pub client_ip : String
  pub model : Option String
  pub operation : String
  pub body : Body P
  pub response : Option (Response P)
  pub replayed : Bool
  pub rest : D

pub record Entry (P : Type 0) : Type 0 where
  pub body_hash : String
  pub stored : Response P

-- What a cache may hold under a key: an Entry, or a value of another type.
pub data Cached (P : Type 0) : Type 0 where
  entry : Entry P → Cached P
  other_value : Cached P

pub record Store (W P : Type 0) : Type 0 where
  pub get : Bytes → W → W × Option (Cached P)
  pub set : Bytes → Cached P → ℕ → W → W

pub data LockAnswer : Type 0 where
  acquired busy lock_failed : LockAnswer

pub record Locker (W : Type 0) : Type 0 where
  pub acquire : Bytes → ℕ → W → W × LockAnswer
  pub release : Bytes → W → W

-- A configuration whose Locker is set.
pub record Config (W P D : Type 0) : Type 0 where
  pub store : Store W P
  pub ttl : ℕ
  pub key_func : Option (IdempotencyContext P D → String)
  pub header_required : Bool
  pub locker : Locker W

-- 24 hours, in nanoseconds.
abbrev pub default_ttl : ℕ
default_ttl = 24 * 3600 * 1000000000

abbrev pub effective_ttl : ℕ → ℕ
effective_ttl ttl = if ltb 0 ttl then ttl else default_ttl

-- A context, the world, and the error of a handler.
abbrev pub Result : Type 0 → Type 0 → Type 0
Result C W = C × W × Option String

abbrev pub succeeded : {P : Type 0} → Option (Response P) → Bool
succeeded none = false
succeeded (some r) = not (ltb r.status_code 200 || leb 300 r.status_code)

abbrev or_ip : String → Option String → String
or_ip ip none = ip
or_ip ip (some user) = if not (str_eq user "") then user else ip

abbrev pub scope : Option String → String → Bytes
scope none operation = codes "_:_"
scope (some name) operation = codes name ++ (b':' ∷ codes operation)

module _ {P D : Type 0} where
  abbrev pub caller : Option (IdempotencyContext P D → String) → IdempotencyContext P D → String
  caller (some f) c = f c
  caller none c = or_ip c.client_ip c.user_id

  abbrev pub cache_key : Option (IdempotencyContext P D → String) → IdempotencyContext P D → Bytes
  cache_key key_func c =
      codes (caller key_func c) ++ (b':' ∷ (scope c.model c.operation ++ (b':' ∷ codes c.header)))

  abbrev pub abort : ℕ → String → IdempotencyContext P D → IdempotencyContext P D
  abort status code c = record c { response = some (refusal status code) }

  -- What becomes of the context where something is cached; none where nothing is.
  abbrev pub replay :
      String → Option (Cached P) → IdempotencyContext P D → Option (IdempotencyContext P D)
  replay hash none c = none
  replay hash (some other_value) c = some (abort 500 "IDEMPOTENCY_CACHE_CORRUPT" c)
  replay hash (some (entry e)) c =
      if not (str_eq e.body_hash hash)
      then some (abort 422 "IDEMPOTENCY_KEY_REUSED" c)
      else some (record c { replayed = true; response = some (snapshot e.stored) })

module _ {W P D : Type 0} where
  -- replayCached, and what follows where it has handled nothing.
  abbrev pub unless_handled :
      Option (IdempotencyContext P D)
      → W
      → Result (IdempotencyContext P D) W
      → Result (IdempotencyContext P D) W
  unless_handled none w rest = rest
  unless_handled (some c) w rest = (c, w, none)

  abbrev pub replay_cached :
      Config W P D
      → Bytes
      → String
      → IdempotencyContext P D
      → W
      → (W → Result (IdempotencyContext P D) W)
      → Result (IdempotencyContext P D) W
  replay_cached cfg key hash c w rest =
      unless_handled (replay hash (cfg.store.get key w).1 c) (cfg.store.get key w).0
        (rest (cfg.store.get key w).0)

  -- Only a response that succeeded is cached.
  abbrev pub remember : Config W P D → Bytes → String → Option (Response P) → W → W
  remember cfg key hash none w = w
  remember cfg key hash (some r) w =
      if succeeded (some r)
      then cfg.store.set key (entry (record { body_hash = hash; stored = snapshot r }))
          (effective_ttl cfg.ttl) w
      else w

  -- Behind next, with the lock held; it is released in every case.
  abbrev pub settle :
      Config W P D
      → Bytes
      → String
      → Result (IdempotencyContext P D) W
      → Result (IdempotencyContext P D) W
  settle cfg key hash (c, w, some err) = (c, cfg.locker.release key w, some err)
  settle cfg key hash (c, w, none) =
      (c, cfg.locker.release key (remember cfg key hash c.response w), none)

  abbrev pub released :
      Config W P D
      → Bytes
      → Option (IdempotencyContext P D)
      → W
      → Result (IdempotencyContext P D) W
      → Result (IdempotencyContext P D) W
  released cfg key none w rest = rest
  released cfg key (some c) w rest = (c, cfg.locker.release key w, none)

  -- With the lock held the cache is asked once more.
  abbrev pub as_holder :
      Config W P D
      → (IdempotencyContext P D → W → Result (IdempotencyContext P D) W)
      → Bytes
      → String
      → IdempotencyContext P D
      → W
      → Result (IdempotencyContext P D) W
  as_holder cfg next key hash c w =
      released cfg key (replay hash (cfg.store.get key w).1 c) (cfg.store.get key w).0
        (settle cfg key hash (next c (cfg.store.get key w).0))

  abbrev pub locked :
      Config W P D
      → (IdempotencyContext P D → W → Result (IdempotencyContext P D) W)
      → Bytes
      → String
      → IdempotencyContext P D
      → W × LockAnswer
      → Result (IdempotencyContext P D) W
  locked cfg next key hash c (w, lock_failed) = next c w
  locked cfg next key hash c (w, busy) = replay_cached cfg key hash c w (next c)
  locked cfg next key hash c (w, acquired) = as_holder cfg next key hash c w

  abbrev pub with_body :
      Config W P D
      → (Bytes → String)
      → (IdempotencyContext P D → W → Result (IdempotencyContext P D) W)
      → IdempotencyContext P D
      → W
      → Body P
      → Result (IdempotencyContext P D) W
  with_body cfg hash next c w (unreadable r) = (record c { response = some r }, w, none)
  with_body cfg hash next c w (readable body) =
      replay_cached cfg (cache_key cfg.key_func c) (hash body) c w λ w'.
        locked cfg next (cache_key cfg.key_func c) (hash body) c
          (cfg.locker.acquire (cache_key cfg.key_func c) (effective_ttl cfg.ttl) w')

  unfoldable pub middleware :
      Config W P D
      → (Bytes → String)
      → (IdempotencyContext P D → W → Result (IdempotencyContext P D) W)
      → IdempotencyContext P D
      → W
      → Result (IdempotencyContext P D) W
  middleware cfg hash next c w =
      if str_eq c.header ""
      then (if cfg.header_required
          then (abort 400 "IDEMPOTENCY_KEY_REQUIRED" c, w, none)
          else next c w)
      else with_body cfg hash next c w c.body

-- The default Locker: the keys that are held. A caller of a key that is held waits, and is told busy when
-- its holder has released it.
unfoldable pub bytes_eq : Bytes → Bytes → Bool
bytes_eq [] [] = true
bytes_eq (x ∷ xs) (y ∷ ys) =
    let rest = bytes_eq xs ys in if leb x y then (if leb y x then rest else false) else false
bytes_eq _ _ = false

unfoldable pub acquire_in_process : Bytes → List Bytes → List Bytes × LockAnswer
unfolding bytes_eq
acquire_in_process key held =
    if any (bytes_eq key) held
    then (filter (λ k. not (bytes_eq key k)) held, busy)
    else (key ∷ held, acquired)

unfoldable pub release_in_process : Bytes → List Bytes → List Bytes
unfolding bytes_eq
release_in_process key held = filter (λ k. not (bytes_eq key k)) held
