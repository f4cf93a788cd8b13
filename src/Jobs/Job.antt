-- ===== src/Jobs/Job.antt =====
-- jobs/jobs.go: Status, Job, JobState and ListQuery; jobs/backoff.go: MaxRetryFor.
--
-- An instant and a duration are numbers of nanoseconds from 0 on: every delay that the package
-- computes is at least 0. A negative MaxRetry acts as 0 does, so the field is a number from 0 on too.
use maniflex.Prelude.{ℕ, String, Bool, true, false, Option, ltb, if◌then◌else◌}
use maniflex.Request.Context.Map.{Map}

pub data Status : Type 0 where
  enqueued running succeeded failed dead cancelled : Status

abbrev pub is_running : Status → Bool
is_running running = true
is_running _ = false

-- The two states that Dequeue claims from.
abbrev pub is_pending : Status → Bool
is_pending enqueued = true
is_pending failed = true
is_pending _ = false

abbrev pub status_eq : Status → Status → Bool
status_eq enqueued enqueued = true
status_eq running running = true
status_eq succeeded succeeded = true
status_eq failed failed = true
status_eq dead dead = true
status_eq cancelled cancelled = true
status_eq _ _ = false

-- A BackoffPolicy is its method Next.
pub record Job : Type 0 where
  pub id : String
  pub type_of : String
  pub payload : String
  pub trace_id : String
  pub actor_id : String
  pub tenant_id : String
  pub max_retry : ℕ
  pub backoff : Option (ℕ → ℕ)
  pub priority : ℕ
  pub not_before : ℕ
  pub group_key : String
  pub headers : Map String
  pub attempts : ℕ

unfoldable pub max_retry_for : Job → ℕ
max_retry_for j = if ltb 0 j.max_retry then j.max_retry else 3

pub record JobState : Type 0 where
  pub job : Job
  pub status : Status

-- An empty string, and no status, match everything.
pub record ListQuery : Type 0 where
  pub type_of : String
  pub status : Option Status
  pub tenant_id : String
  pub actor_id : String
  pub limit : ℕ
  pub offset : ℕ
