-- ===== src/Examples/CronRuns.antt =====
-- Runs of jobs/cron/cron.go.
use maniflex.Prelude.{
  ℕ, ◌+◌, ◌*◌, ◌≤◌, ◌≡◌, refl, inl, inr, ◌⊎◌, ap, Bool, true, false, none, some, [], ◌∷◌,
}
use maniflex.Prelude.Bytes.{Bytes, codes, format_uint}
use maniflex.Jobs.Job.{Job}
use maniflex.Jobs.Cron.Defs.{Entry, Grant, granted, refused, Scheduler, fire_key, start, stop, add}
use maniflex.Jobs.Cron.Once.{GrantsOnce, firings, fires_once}

-- A lock that is taken or free, and how many jobs the queue has.
record World : Type 0 where
  taken : Bool
  enqueued : ℕ

abbrev take_lock : World → Bool → World × Grant
take_lock w true = (w, refused)
take_lock w false = (record w { taken = true }, granted)

abbrev acquire : Bytes → ℕ → World → World × Grant
acquire key every w = take_lock w w.taken

abbrev nightly_job : Job
nightly_job = record {
  id = "t";
  type_of = "report";
  payload = "";
  trace_id = "";
  actor_id = "";
  tenant_id = "";
  max_retry = 0;
  backoff = none;
  priority = 0;
  not_before = 0;
  group_key = "";
  headers = [];
  attempts = 0;
}

abbrev nightly : Entry
nightly = record { every = 60000000000; job = nightly_job; name = "" }

abbrev scheduler : Scheduler World
scheduler = record {
  entries = nightly ∷ [];
  enqueue_at = λ j t w. (record w { enqueued = w.enqueued + 1 }, none);
  locker = some acquire;
  started = false;
  stopped = false;
  tickers = [];
}

abbrev show : ℕ → Bytes
show d = codes "1m0s"

-- A minute that begins at 1970, and two times of it.
abbrev minute : ℕ
minute = 62135596800 * 1000000000

key_text : fire_key show nightly (minute + 5) ≡ codes "cron|report|1m0s|0"
unfolding fire_key format_uint
key_text = refl

starts_once : start (start (add nightly scheduler)) ≡ start (add nightly scheduler)
unfolding start add
starts_once = refl

no_start_behind_stop : (start (stop (start scheduler))).tickers ≡ []
unfolding start stop
no_start_behind_stop = refl

take_lock_gives :
    (w : World) (b : Bool)
    → ((take_lock w b).1 ≡ refused)
      ⊎ (((take_lock w b).1 ≡ granted) × ((take_lock w b).0.taken ≡ true))
take_lock_gives w true = inl refl
take_lock_gives w false = inr (refl, refl)

take_lock_holds : (w : World) (b : Bool) → w.taken ≡ true → (take_lock w b).0.taken ≡ true
take_lock_holds w true h = h
take_lock_holds w false h = refl

acquire-GrantsOnce :
    GrantsOnce acquire scheduler.enqueue_at (fire_key show nightly minute) (λ w. w.taken ≡ true)
acquire-GrantsOnce = record {
  gives = λ every w. take_lock_gives w w.taken;
  refuses = λ every w given. ap (λ b. (take_lock w b).1) given;
  holds = λ every w given. take_lock_holds w w.taken given;
  rests = λ j t w given. given;
}

fires_once_example :
    firings show scheduler nightly
      ((minute + 5) ∷ (minute + 59000000000) ∷ [])
      (record { taken = false; enqueued = 0 })
    ≤ 1
fires_once_example =
    fires_once show scheduler nightly acquire (λ w. w.taken ≡ true) minute
      ((minute + 5) ∷ (minute + 59000000000) ∷ []) (record { taken = false; enqueued = 0 }) refl
      acquire-GrantsOnce (refl, (refl, tt))
