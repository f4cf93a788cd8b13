-- ===== src/Idempotency/Replayed.antt =====
-- middleware/idempotency/idempotency.go: what a retry under a key is answered.
use maniflex.Prelude.{
  String, ◌≡◌, refl, ap, ◌∙◌, Bool, true, false, not, none, some, str_eq, if◌then◌else◌,
}
use maniflex.Prelude.Bytes.{Bytes}
use maniflex.Idempotency.Defs.{
  Response, IdempotencyContext, readable, Entry, Cached, entry, Config, acquired, effective_ttl,
  Result, succeeded, cache_key, abort, replay, unless_handled, snapshot, remember, settle, released,
  locked, with_body, middleware,
}

module _ {W P D : Type 0} (cfg : Config W P D) (key : Bytes) where
  -- What the cache keeps of a key, and that a released lock does not touch it.
  pub record IsLawful : Type 0 where
    pub kept :
        (e : Cached P) (w : W)
        → (cfg.store.get key (cfg.store.set key e (effective_ttl cfg.ttl) w)).1 ≡ some e
    pub untouched :
        (w : W) → (cfg.store.get key (cfg.locker.release key w)).1 ≡ (cfg.store.get key w).1

  -- The caller finds nothing under the key, gets the lock, and finds nothing still; w' is the world then.
  unfoldable pub IsFirst : W → W → Type 0
  IsFirst w w' =
      (v : W) × (cfg.store.get key w ≡ (v, none))
      × ((u : W) × (cfg.locker.acquire key (effective_ttl cfg.ttl) v ≡ (u, acquired))
          × (cfg.store.get key u ≡ (w', none)))

-- The answer of a retry: the first response with its AsIs and Dir unset, or the refusal of another body.
abbrev pub retried :
    {P D : Type 0} → Bool → Response P → IdempotencyContext P D → IdempotencyContext P D
retried same r c =
    if same
    then record c { replayed = true; response = some (record r { as_is = false; dir = "" }) }
    else abort 422 "IDEMPOTENCY_KEY_REUSED" c

answer :
    {W P D : Type 0} (same : Bool) (e : Entry P) (d : IdempotencyContext P D) (v : W)
    (rest : Result (IdempotencyContext P D) W)
    → unless_handled
        (if not same
          then some (abort 422 "IDEMPOTENCY_KEY_REUSED" d)
          else some (record d { replayed = true; response = some (snapshot e.stored) }))
        v
        rest
      ≡ (retried same e.stored d, v, none)
answer true e d v rest = refl
answer false e d v rest = refl

module _ {W P D : Type 0} (cfg : Config W P D) (hash : Bytes → String) where
  keyed-with_body :
      (next : IdempotencyContext P D → W → Result (IdempotencyContext P D) W)
      (c : IdempotencyContext P D) (w : W) (body : Bytes)
      → str_eq c.header "" ≡ false
      → c.body ≡ readable body
      → middleware cfg hash next c w ≡ with_body cfg hash next c w (readable body)
  unfolding middleware
  keyed-with_body next c w body keyed readable_body =
      ap
        (λ b.
          if b
          then (if cfg.header_required
              then (abort 400 "IDEMPOTENCY_KEY_REQUIRED" c, w, none)
              else next c w)
          else with_body cfg hash next c w c.body)
        keyed
      ∙ ap (with_body cfg hash next c w) readable_body

  -- A first request runs the pipeline, and leaves its response in the cache.
  first-stored :
      (next : IdempotencyContext P D → W → Result (IdempotencyContext P D) W)
      (c c' : IdempotencyContext P D) (w w' v : W) (body : Bytes) (r : Response P)
      → IsLawful cfg (cache_key cfg.key_func c)
      → str_eq c.header "" ≡ false
      → c.body ≡ readable body
      → IsFirst cfg (cache_key cfg.key_func c) w w'
      → next c w' ≡ (c', v, none)
      → c'.response ≡ some r
      → succeeded (some r) ≡ true
      → (cfg.store.get (cache_key cfg.key_func c) (middleware cfg hash next c w).1).1
        ≡ some (entry (record { body_hash = hash body; stored = snapshot r }))
  unfolding IsFirst
  first-stored next c c' w w' v body r laws keyed readable_body (w1, miss, (w2, got, miss_again))
        ran answered fine =
      let key : Bytes = cache_key cfg.key_func c in
      let locking : W → Result (IdempotencyContext P D) W =
        λ u. locked cfg next key (hash body) c (cfg.locker.acquire key (effective_ttl cfg.ttl) u) in
      ap (λ o. (cfg.store.get key o.1).1)
        (keyed-with_body next c w body keyed readable_body
          ∙ ap (λ g. unless_handled (replay (hash body) g.1 c) g.0 (locking g.0)) miss
          ∙ ap (locked cfg next key (hash body) c) got
          ∙ ap
              (λ g.
                released cfg key (replay (hash body) g.1 c) g.0
                  (settle cfg key (hash body) (next c g.0)))
              miss_again
          ∙ ap (settle cfg key (hash body)) ran)
      ∙ laws.untouched (remember cfg key (hash body) c'.response v)
      ∙ ap (λ o. (cfg.store.get key (remember cfg key (hash body) o v)).1) answered
      ∙ ap
          (λ b.
            (cfg.store.get key (
              if b
              then cfg.store.set key (entry (record { body_hash = hash body; stored = snapshot r }))
                  (effective_ttl cfg.ttl) v
              else v)).1)
          fine
      ∙ laws.kept (entry (record { body_hash = hash body; stored = snapshot r })) v

  retry-answered :
      (next : IdempotencyContext P D → W → Result (IdempotencyContext P D) W)
      (d : IdempotencyContext P D) (w : W) (body : Bytes) (e : Entry P)
      → str_eq d.header "" ≡ false
      → d.body ≡ readable body
      → (cfg.store.get (cache_key cfg.key_func d) w).1 ≡ some (entry e)
      → middleware cfg hash next d w ≡ (
        retried (str_eq e.body_hash (hash body)) e.stored d,
        (cfg.store.get (cache_key cfg.key_func d) w).0,
        none,
      )
  retry-answered next d w body e keyed readable_body hit =
      let key : Bytes = cache_key cfg.key_func d in
      let v : W = (cfg.store.get key w).0 in
      let rest : Result (IdempotencyContext P D) W =
        locked cfg next key (hash body) d (cfg.locker.acquire key (effective_ttl cfg.ttl) v) in
      keyed-with_body next d w body keyed readable_body
      ∙ ap (λ o. unless_handled (replay (hash body) o d) v rest) hit
      ∙ answer (str_eq e.body_hash (hash body)) e d v rest

-- A retry does not run the pipeline again. The first request under a key found nothing cached, got the
-- lock, and its response r succeeded; a later request under that key, whatever pipeline stands behind it,
-- is answered with the status, data, error and meta of r if its body has the same hash, though with AsIs
-- and Dir unset, and refused with 422 if it has not, and leaves the world as the lookup in the cache does; if the cache keeps what it is given and releasing a lock does not
-- touch it.
pub retry_replays :
    {W P D : Type 0} (cfg : Config W P D) (hash : Bytes → String)
    (next next' : IdempotencyContext P D → W → Result (IdempotencyContext P D) W)
    (c c' d : IdempotencyContext P D) (w w' v : W) (body body' : Bytes) (r : Response P)
    → IsLawful cfg (cache_key cfg.key_func c)
    → str_eq c.header "" ≡ false
    → c.body ≡ readable body
    → IsFirst cfg (cache_key cfg.key_func c) w w'
    → next c w' ≡ (c', v, none)
    → c'.response ≡ some r
    → succeeded (some r) ≡ true
    → str_eq d.header "" ≡ false
    → d.body ≡ readable body'
    → cache_key cfg.key_func d ≡ cache_key cfg.key_func c
    → middleware cfg hash next' d (middleware cfg hash next c w).1 ≡ (
      retried (str_eq (hash body) (hash body')) r d,
      (cfg.store.get (cache_key cfg.key_func d) (middleware cfg hash next c w).1).0,
      none,
    )
retry_replays cfg hash next next' c c' d w w' v body body' r laws keyed read first ran answered fine
      keyed' read' same =
    retry-answered cfg hash next' d (middleware cfg hash next c w).1 body'
      (record { body_hash = hash body; stored = snapshot r }) keyed' read'
      (ap (λ k. (cfg.store.get k (middleware cfg hash next c w).1).1) same
        ∙ first-stored cfg hash next c c' w w' v body r laws keyed read first ran answered fine)
