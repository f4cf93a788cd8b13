-- ===== src/Memo/MemoryCache.antt =====
-- cache.go: MemoryCache.
--
-- Instants and the ttl are numbers of nanoseconds. A call is one step of the mutex; the readings of the
-- clock are arguments, `now` and, for the second reading of Set, `later`.
use maniflex.Prelude.{
  ℕ, ◌+◌, String, Bool, not, Option, none, some, [], ◌∷◌, ltb, leb, if◌then◌else◌,
}
use maniflex.Request.Context.Map.{Map, lookup, insert, delete, has}

pub record CacheEntry (V : Type 0) : Type 0 where
  pub value : V
  pub expires_at : ℕ

pub record MemoryCache (V : Type 0) : Type 0 where
  pub entries : Map (CacheEntry V)
  pub inserts : ℕ

abbrev pub prune_every : ℕ
prune_every = 128

module _ {V : Type 0} where
  unfoldable pub new_cache : MemoryCache V
  new_cache = record { entries = []; inserts = 0 }

  -- m.clock.Now().After(e.expiresAt)
  abbrev pub expired : ℕ → CacheEntry V → Bool
  expired now e = ltb e.expires_at now

  abbrev pub on_hit : ℕ → String → MemoryCache V → Option (CacheEntry V) → MemoryCache V × Option V
  on_hit now key m none = (m, none)
  on_hit now key m (some e) =
      if expired now e
      then (record m { entries = delete key m.entries }, none)
      else (m, some e.value)

  unfoldable pub get : ℕ → String → MemoryCache V → MemoryCache V × Option V
  get now key m = on_hit now key m (lookup key m.entries)

  -- pruneLocked
  unfoldable pub prune : ℕ → Map (CacheEntry V) → Map (CacheEntry V)
  prune now [] = []
  prune now ((k, e) ∷ m) = let rest = prune now m in if expired now e then rest else (k, e) ∷ rest

  -- What Set does before it stores a key that is new.
  abbrev pub count_insert : ℕ → MemoryCache V → MemoryCache V
  count_insert now m =
      if leb prune_every (m.inserts + 1)
      then record { entries = prune now m.entries; inserts = 0 }
      else record m { inserts = m.inserts + 1 }

  abbrev pub store_entry : String → CacheEntry V → MemoryCache V → MemoryCache V
  store_entry key e m = record m { entries = insert key e m.entries }

  unfoldable pub set : ℕ → ℕ → String → V → ℕ → MemoryCache V → MemoryCache V
  unfolding prune
  set now later key value ttl m =
      store_entry key (record { value = value; expires_at = later + ttl })
        (if not (has key m.entries) then count_insert now m else m)

  unfoldable pub remove : String → MemoryCache V → MemoryCache V
  remove key m = record m { entries = delete key m.entries }
