-- ===== src/Examples/IdempotencyRuns.antt =====
-- Runs of middleware/idempotency/idempotency.go over a pipeline that counts how often it ran.
use maniflex.Prelude.{
  ℕ, ◌+◌, ◌≡◌, refl, String, true, false, Option, none, some, List, [], ◌∷◌, ltb, if◌then◌else◌,
  length,
}
use maniflex.Prelude.Bytes.{Bytes, codes}
use maniflex.Idempotency.Defs.{
  Response, IdempotencyContext, readable, Cached, Config, LockAnswer, Result, middleware,
  acquire_in_process, release_in_process, bytes_eq,
}
use maniflex.Idempotency.Replayed.{IsLawful, IsFirst, retried, retry_replays}

record World : Type 0 where
  cached : List (Bytes × Cached ℕ)
  held : List Bytes
  runs : ℕ

abbrev find : Bytes → List (Bytes × Cached ℕ) → Option (Cached ℕ)
find key [] = none
find key ((k, e) ∷ m) = let rest = find key m in if bytes_eq key k then some e else rest

abbrev locked_world : World → List Bytes × LockAnswer → World × LockAnswer
locked_world w (held, answer) = (record w { held = held }, answer)

abbrev cfg : Config World ℕ Unit
cfg = record {
  store = record {
    get = λ key w. (w, find key w.cached);
    set = λ key e ttl w. record w { cached = (key, e) ∷ w.cached };
  };
  ttl = 0;
  key_func = none;
  header_required = false;
  locker = record {
    acquire = λ key ttl w. locked_world w (acquire_in_process key w.held);
    release = λ key w. record w { held = release_in_process key w.held };
  };
}

abbrev hash : Bytes → String
hash b = if ltb (length b) 3 then "short" else "long"

abbrev created : ℕ → Response ℕ
created n = record {
  status_code = 201;
  data_of = some n;
  error = none;
  meta = none;
  as_is = true;
  dir = "rtl";
}

abbrev creates : IdempotencyContext ℕ Unit → World → Result (IdempotencyContext ℕ Unit) World
creates c w = (record c { response = some (created w.runs) }, record w { runs = w.runs + 1 }, none)

abbrev request : Bytes → IdempotencyContext ℕ Unit
request body = record {
  header = "k1";
  user_id = some "u7";
  client_ip = "10.0.0.1";
  model = some "Invoice";
  operation = "create";
  body = readable body;
  response = none;
  replayed = false;
  rest = tt;
}

abbrev empty_world : World
empty_world = record { cached = []; held = []; runs = 0 }

abbrev holding : World
holding = record empty_world { held = codes "u7:Invoice:create:k1" ∷ [] }

runs_once :
    (middleware cfg hash creates
      (request (codes "{}"))
      (middleware cfg hash creates (request (codes "{}")) empty_world).1).1.runs
    ≡ 1
unfolding middleware bytes_eq acquire_in_process release_in_process
runs_once = refl

without_a_key :
    (middleware cfg hash creates (record (request []) { header = "" }) empty_world).1.runs ≡ 1
unfolding middleware
without_a_key = refl

cfg-IsLawful : IsLawful cfg (codes "u7:Invoice:create:k1")
unfolding bytes_eq
cfg-IsLawful = record { kept = λ e w. refl; untouched = λ w. refl }

first : IsFirst cfg (codes "u7:Invoice:create:k1") empty_world holding
unfolding IsFirst acquire_in_process bytes_eq
first = (empty_world, refl, (holding, refl, refl))

retry_replays_example :
    middleware cfg hash creates
      (request (codes "{1}"))
      (middleware cfg hash creates (request (codes "{}")) empty_world).1
    ≡ (
      retried false (created 0) (request (codes "{1}")),
      (middleware cfg hash creates (request (codes "{}")) empty_world).1,
      none,
    )
retry_replays_example =
    retry_replays cfg hash creates creates (request (codes "{}"))
      (record (request (codes "{}")) { response = some (created 0) }) (request (codes "{1}"))
      empty_world holding (record holding { runs = 1 }) (codes "{}") (codes "{1}") (created 0)
      cfg-IsLawful refl refl first refl refl refl refl refl refl

-- A caller that has waited for a holder that left nothing runs the pipeline, and what it is answered is
-- not cached.
waiter_not_cached : middleware cfg hash creates (request (codes "{}")) holding ≡ (
  record (request (codes "{}")) { response = some (created 0) },
  record empty_world { runs = 1 },
  none,
)
unfolding middleware bytes_eq acquire_in_process
waiter_not_cached = refl
