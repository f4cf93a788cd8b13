-- ===== src/Jobs/Worker/Defs.antt =====
-- jobs/worker.go: handle, runHandler, requeueUnhandled, markDead, transition and the requeue counter.
--
-- `W` is the state that the source, the handlers and the hooks act on. The terminal context never ends,
-- so no call fails because of it. The trace id, the log and the renewals of the lease, which run beside
-- the handler, are not modelled, and the texts of its own errors are cut short. `encode` stands for json.Marshal.
use maniflex.Prelude.{
  ℕ, ◌+◌, ◌-◌, String, Bool, true, false, Option, none, some, ltb, leb, str_eq, if◌then◌else◌,
}
use maniflex.Prelude.Int.{ℤ, pos, negsuc}
use maniflex.Prelude.Itoa.{itoa, atoi}
use maniflex.Request.Context.Map.{Map, lookup, insert}
use maniflex.Jobs.Job.{Status, enqueued, running, succeeded, failed, dead, Job, max_retry_for}
use maniflex.Jobs.Backoff.{backoff_for}

-- An effect that may fail.
abbrev pub Effect : Type 0 → Type 0
Effect W = W → W × Option String

-- How a handler ends.
pub data Outcome : Type 0 where
  returned : String → Outcome
  refused panicked : String → Outcome

abbrev pub Handler : Type 0 → Type 0
Handler W = Job → W → W × Outcome

-- A source has a requeue when it implements Requeuer, and an enqueue when it implements Queue.
pub record Source (W : Type 0) : Type 0 where
  pub ack : String → Effect W
  pub nack : String → String → ℕ → Effect W
  pub bury : String → String → Effect W
  pub requeue : Option (Job → ℕ → Effect W)
  pub enqueue : Option (Job → Effect W)

-- The two parts of a StatusInfo that are not the job's.
pub record StatusInfo : Type 0 where
  pub error : String
  pub result : Option String

pub record WorkerConfig (W : Type 0) : Type 0 where
  pub source : Source W
  pub handlers : Map (Handler W)
  pub status : Option (Job → Status → Status → StatusInfo → Effect W)
  pub event_bus : Option (String → Job → Effect W)
  pub on_panic : Option (Job → String → W → W)
  pub dlq_type : String
  pub max_unhandled_requeues : ℕ
  pub empty_queue_backoff : ℕ

abbrev pub no_info : StatusInfo
no_info = record { error = ""; result = none }

abbrev pub failure : String → StatusInfo
failure e = record { error = e; result = none }

abbrev pub success : String → StatusInfo
success r = record { error = ""; result = some r }

abbrev pub unhandled_header : String
unhandled_header = "maniflex-unhandled-requeues"

abbrev pub unhandled_error : String
unhandled_error = "no handler registered for job type"

abbrev pub five_seconds : ℕ
five_seconds = 5000000000

abbrev pub not_negative : ℤ → ℕ
not_negative (pos n) = n
not_negative (negsuc n) = 0

abbrev pub header_value : Option String → String
header_value none = ""
header_value (some s) = s

-- A missing header is the empty string, which Atoi reads as 0.
unfoldable pub unhandled_count : Job → ℕ
unhandled_count j = not_negative (atoi (header_value (lookup unhandled_header j.headers)))

unfoldable pub with_unhandled_count : Map String → ℕ → Map String
with_unhandled_count h n = insert unhandled_header (itoa n) h

-- The job that is requeued: the attempt of this delivery taken back, and one requeue more.
unfoldable pub bounced : Job → Job
unfolding unhandled_count with_unhandled_count
bounced j = record j {
  attempts = if ltb 0 j.attempts then j.attempts - 1 else j.attempts;
  headers = with_unhandled_count j.headers (unhandled_count j + 1);
}

module _ {W : Type 0} where
  abbrev pub unhandled_requeue_delay : WorkerConfig W → ℕ
  unhandled_requeue_delay cfg =
      if ltb five_seconds cfg.empty_queue_backoff then cfg.empty_queue_backoff else five_seconds

  -- What follows an effect that succeeded; a failure is logged.
  abbrev pub when_done : W × Option String → (W → W) → W
  when_done (w, none) rest = rest w
  when_done (w, some e) rest = w

  -- A failed transition is only logged.
  abbrev pub move :
      Option (Job → Status → Status → StatusInfo → Effect W)
      → Job
      → Status
      → Status
      → StatusInfo
      → W
      → W
  move none j from to info w = w
  move (some t) j from to info w = (t j from to info w).0

  abbrev pub transition : WorkerConfig W → Job → Status → Status → StatusInfo → W → W
  transition cfg = move cfg.status

  abbrev pub emit : Option (String → Job → Effect W) → String → Job → W → W
  emit none suffix j w = w
  emit (some bus) suffix j w = (bus suffix j w).0

  abbrev pub publish_job_event : WorkerConfig W → Job → String → W → W
  publish_job_event cfg j suffix = emit cfg.event_bus suffix j

  abbrev pub recovered : Option (Job → String → W → W) → Job → W × Outcome → W × Outcome
  recovered (some hook) j (w, panicked v) = (hook j v w, panicked v)
  recovered _ j r = r

  unfoldable pub run_handler : WorkerConfig W → Job → Handler W → W → W × Outcome
  run_handler cfg j h w = recovered cfg.on_panic j (h j w)

  abbrev pub enqueue_dlq : Option (Job → Effect W) → Job → W → W
  enqueue_dlq none dlq w = w
  enqueue_dlq (some enqueue) dlq w = (enqueue dlq w).0

  abbrev pub no_handler : Option (Handler W) → Bool
  no_handler none = true
  no_handler (some h) = false

  -- The copy of a dead job under the dead-letter type, where there is one and a handler for it.
  abbrev pub dlq_copy : (Job → String → String) → WorkerConfig W → Job → String → W → W
  dlq_copy encode cfg j err w =
      if str_eq cfg.dlq_type ""
      then w
      else if no_handler (lookup cfg.dlq_type cfg.handlers)
      then w
      else enqueue_dlq cfg.source.enqueue
          (record j { id = ""; type_of = cfg.dlq_type; payload = encode j err }) w

  unfoldable pub mark_dead : (Job → String → String) → WorkerConfig W → Job → String → W → W
  mark_dead encode cfg j err w =
      let w' = publish_job_event cfg j "failed" (transition cfg j running dead (failure err) w) in
      dlq_copy encode cfg j err (cfg.source.bury j.id err w').0

  -- The nack of a job that no handler takes, at a source that cannot requeue.
  abbrev pub nack_unhandled : WorkerConfig W → Job → String → W → W
  nack_unhandled cfg j err w =
      when_done (cfg.source.nack j.id err (unhandled_requeue_delay cfg) w) λ w'.
        transition cfg j running (if leb (max_retry_for j) j.attempts then dead else failed)
          (failure err) w'

  abbrev pub bounce : WorkerConfig W → (Job → ℕ → Effect W) → Job → W → W
  bounce cfg requeue j w =
      when_done (requeue (bounced j) (unhandled_requeue_delay cfg) w)
        λ w'. transition cfg (bounced j) running enqueued no_info w'

  abbrev pub requeue_with :
      (Job → String → String) → WorkerConfig W → Option (Job → ℕ → Effect W) → Job → String → W → W
  requeue_with encode cfg none j err w = nack_unhandled cfg j err w
  requeue_with encode cfg (some requeue) j err w =
      if leb cfg.max_unhandled_requeues (unhandled_count j)
      then mark_dead encode cfg j err w
      else bounce cfg requeue j w

  abbrev pub requeue_unhandled : (Job → String → String) → WorkerConfig W → Job → W → W
  requeue_unhandled encode cfg j w = requeue_with encode cfg cfg.source.requeue j unhandled_error w

  -- What a failed handler comes to.
  abbrev pub retry_or_bury : (Job → String → String) → WorkerConfig W → Job → String → W → W
  retry_or_bury encode cfg j err w =
      if leb (max_retry_for j) j.attempts
      then mark_dead encode cfg j err w
      else (cfg.source.nack j.id err (backoff_for j j.attempts)
          (transition cfg j running failed (failure err) w)).0

  abbrev pub finish : (Job → String → String) → WorkerConfig W → Job → W × Outcome → W
  finish encode cfg j (w, refused err) = retry_or_bury encode cfg j err w
  finish encode cfg j (w, panicked v) = retry_or_bury encode cfg j v w
  finish encode cfg j (w, returned r) =
      let w' = transition cfg j running succeeded (success r) w in
      (cfg.source.ack j.id (publish_job_event cfg j "completed" w')).0

  abbrev pub dispatch : (Job → String → String) → WorkerConfig W → Job → Option (Handler W) → W → W
  dispatch encode cfg j none w = requeue_unhandled encode cfg j w
  dispatch encode cfg j (some h) w = finish encode cfg j (run_handler cfg j h w)

  unfoldable pub handle : (Job → String → String) → WorkerConfig W → Job → W → W
  unfolding run_handler mark_dead
  handle encode cfg j w =
      dispatch encode cfg j (lookup j.type_of cfg.handlers)
        (transition cfg j enqueued running no_info w)
