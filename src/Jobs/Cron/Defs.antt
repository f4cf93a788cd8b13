-- ===== src/Jobs/Cron/Defs.antt =====
-- jobs/cron/cron.go: Scheduler with Add, Start and Stop, the firing of an entry, claim and fireKey.
--
-- `W` is the world of the queue and of the Locker. A time is a number of nanoseconds since the zero time,
-- from which Truncate counts, and Every is above 0, since NewTicker panics else. `show` is how a duration
-- prints. A tick is one round of the loop of run; that the ticker ticks is left to the runtime.
use maniflex.Prelude.{
  ℕ, ◌+◌, ◌-◌, ◌/◌, ◌%◌, String, Bool, true, false, ◌||◌, Option, none, some, List, [], ◌∷◌, ◌++◌,
  str_eq, if◌then◌else◌,
}
use maniflex.Prelude.Int.{ℤ, pos, negsuc, sub_ℕ}
use maniflex.Prelude.Bytes.{Bytes, codes, format_uint}
use maniflex.Jobs.Job.{Job}

pub record Entry : Type 0 where
  pub every : ℕ
  pub job : Job
  pub name : String

-- What Acquire answers.
pub data Grant : Type 0 where
  granted refused unavailable : Grant

pub record Scheduler (W : Type 0) : Type 0 where
  pub entries : List Entry
  pub enqueue_at : Job → ℕ → W → W × Option String
  pub locker : Option (Bytes → ℕ → W → W × Grant)
  pub started : Bool
  pub stopped : Bool
  -- The tickers that run.
  pub tickers : List Entry

-- The seconds from the zero time to 1970.
abbrev unix_origin : ℕ
unix_origin = 62135596800

abbrev pub truncate : ℕ → ℕ → ℕ
truncate t every = t - t % every

abbrev pub unix : ℕ → ℤ
unix t = sub_ℕ (t / 1000000000) unix_origin

abbrev pub print_int : ℤ → Bytes
print_int (pos n) = format_uint n
print_int (negsuc n) = b'-' ∷ format_uint (n + 1)

abbrev pub name_of : Entry → String
name_of e = if str_eq e.name "" then e.job.type_of else e.name

unfoldable pub fire_key : (ℕ → Bytes) → Entry → ℕ → Bytes
fire_key show e t =
    codes "cron|"
    ++ (codes (name_of e)
        ++ (b'|' ∷ (show e.every ++ (b'|' ∷ print_int (unix (truncate t e.every))))))

-- A lock backend that does not answer lets the entry fire.
abbrev pub admitted : Grant → Bool
admitted granted = true
admitted refused = false
admitted unavailable = true

abbrev pub decided : {W : Type 0} → W × Grant → W × Bool
decided (w, g) = (w, admitted g)

module _ {W : Type 0} where
  abbrev pub claim_with : Option (Bytes → ℕ → W → W × Grant) → Bytes → ℕ → W → W × Bool
  claim_with none key every w = (w, true)
  claim_with (some acquire) key every w = decided (acquire key every w)

  unfoldable pub claim : (ℕ → Bytes) → Scheduler W → Entry → ℕ → W → W × Bool
  claim show s e t w = claim_with s.locker (fire_key show e t) e.every w

  -- The world behind a tick, and whether the job was handed to the queue.
  abbrev pub fire : Scheduler W → Entry → ℕ → W × Bool → W × Bool
  fire s e t (w, false) = (w, false)
  fire s e t (w, true) = ((s.enqueue_at (record e.job { id = "" }) t w).0, true)

  unfoldable pub tick : (ℕ → Bytes) → Scheduler W → Entry → ℕ → W → W × Bool
  unfolding claim
  tick show s e t w = fire s e t (claim show s e t w)

  unfoldable pub add : Entry → Scheduler W → Scheduler W
  add e s = record s { entries = s.entries ++ (e ∷ []) }

  unfoldable pub start : Scheduler W → Scheduler W
  start s = if s.started || s.stopped then s else record s { started = true; tickers = s.entries }

  -- Stop waits for the tickers to exit.
  unfoldable pub stop : Scheduler W → Scheduler W
  stop s = record s { stopped = true; tickers = [] }
