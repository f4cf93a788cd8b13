-- ===== src/Jobs/Worker/Settles.antt =====
-- jobs/worker.go on jobs/inproc/queue.go: what becomes of a job that a worker takes from the in-process
-- queue.
use maniflex.Prelude.{
  ℕ, String, ◌≡◌, refl, ◌≢◌, ap, ◌∙◌, inl, inr, Option, none, some, leb, Bool-cases,
}
use maniflex.Request.Context.Map.{lookup}
use maniflex.Jobs.Job.{enqueued, running, succeeded, Job, max_retry_for}
use maniflex.Jobs.Inproc.{Entry, Queue, entry_of}
use maniflex.Jobs.Inproc.Invariant.{IsWellFormed}
use maniflex.Jobs.Inproc.Release.{Released, ack-gone}
use maniflex.Jobs.Worker.Defs.{
  Outcome, returned, refused, panicked, Handler, WorkerConfig, no_info, success, unhandled_error,
  unhandled_count, transition, publish_job_event, run_handler, finish, dispatch, handle,
}
use maniflex.Jobs.Worker.OnQueue.{
  on_queue, KeepsQueue, mark_dead-gone, bounce-Released, retry_or_bury-Released,
  retry_or_bury-retried, retried,
}

-- What the queue holds of a job after a handler that ended in some way.
abbrev pub leaves : ℕ → Job → ℕ → Entry → Outcome → Option (ℕ × Entry)
leaves now j h x (returned v) = none
leaves now j h x (refused e) = retried now j h x
leaves now j h x (panicked v) = retried now j h x

module _ {U : Type 0} (encode : Job → String → String) (now : ℕ) (fresh : String)
    (base : WorkerConfig (Queue × U)) (keeps : KeepsQueue base) where
  finish-Released :
      (j : Job) (r : (Queue × U) × Outcome)
      → fresh ≢ j.id
      → IsWellFormed r.0.0
      → Released j.id (finish encode (on_queue now fresh base) j r).0
  finish-Released j (w, returned v) other wf =
      let w1 = transition base j running succeeded (success v) w in
      inl (ack-gone j.id (publish_job_event base j "completed" w1).0)
  finish-Released j (w, refused e) other wf =
      retry_or_bury-Released encode now fresh base keeps j e w other wf
  finish-Released j (w, panicked v) other wf =
      retry_or_bury-Released encode now fresh base keeps j v w other wf

  dispatch-Released :
      (j : Job) (h : Option (Handler (Queue × U))) (w : Queue × U)
      → fresh ≢ j.id
      → IsWellFormed w.0
      → ((f : Handler (Queue × U)) → h ≡ some f → IsWellFormed (run_handler base j f w).0.0)
      → Released j.id (dispatch encode (on_queue now fresh base) j h w).0
  unfolding run_handler
  dispatch-Released j (some f) w other wf keeps_order =
      finish-Released j (run_handler base j f w) other (keeps_order f refl)
  dispatch-Released j none w other wf keeps_order =
      elim (Bool-cases (leb base.max_unhandled_requeues (unhandled_count j))) [
        | inl spent ↦
            rw spent (inl (mark_dead-gone encode now fresh base keeps j unhandled_error w other wf))
        | inr left ↦ rw left (bounce-Released encode now fresh base keeps j w)
      ]

  -- A worker never keeps a job of the in-process queue: whatever type it has, and whether its handler
  -- returns, fails or panics, and whatever it does to the queue meanwhile, at the end of handle the job
  -- is out of the queue or waits in it. The queue is well formed, before and when the handler ends; the
  -- status store and the event bus are not the queue, and an id that Enqueue mints is not the job's.
  pub handle-Released :
      (j : Job) (w : Queue × U)
      → fresh ≢ j.id
      → IsWellFormed w.0
      → ((f : Handler (Queue × U))
          → lookup j.type_of base.handlers ≡ some f
          → IsWellFormed (run_handler base j f (transition base j enqueued running no_info w)).0.0)
      → Released j.id (handle encode (on_queue now fresh base) j w).0
  unfolding handle
  handle-Released j w other wf keeps_order =
      let w1 = transition base j enqueued running no_info w in
      let same = keeps.status j enqueued running no_info w in
      dispatch-Released j (lookup j.type_of base.handlers) w1 other (rw same wf) keeps_order

  finish-leaves :
      (j : Job) (r : (Queue × U) × Outcome) (h : ℕ) (x : Entry)
      → fresh ≢ j.id
      → IsWellFormed r.0.0
      → entry_of j.id r.0.0 ≡ some (h, x)
      → x.attempts ≡ j.attempts
      → max_retry_for x.job ≡ max_retry_for j
      → entry_of j.id (finish encode (on_queue now fresh base) j r).0 ≡ leaves now j h x r.1
  finish-leaves j (w, returned v) h x other wf there count budget =
      ack-gone j.id
        (publish_job_event base j "completed" (transition base j running succeeded (success v) w)).0
  finish-leaves j (w, refused e) h x other wf there count budget =
      retry_or_bury-retried encode now fresh base keeps j e w h x other wf there count budget
  finish-leaves j (w, panicked v) h x other wf there count budget =
      retry_or_bury-retried encode now fresh base keeps j v w h x other wf there count budget

  -- How the handler ends decides what is left of the job that Dequeue handed out: nothing after a
  -- success; after an error or a panic nothing when the attempts are spent, and else the claimed entry,
  -- waiting, with the attempts it has spent, until the delay of its backoff is over. The handler leaves
  -- the entry in place and the queue well formed; the status store and the event bus are not the queue.
  pub handle-leaves :
      (j : Job) (f : Handler (Queue × U)) (w : Queue × U) (h : ℕ) (x : Entry)
      → lookup j.type_of base.handlers ≡ some f
      → fresh ≢ j.id
      → let r = run_handler base j f (transition base j enqueued running no_info w) in
        IsWellFormed r.0.0
        → entry_of j.id r.0.0 ≡ some (h, x)
        → x.attempts ≡ j.attempts
        → max_retry_for x.job ≡ max_retry_for j
        → entry_of j.id (handle encode (on_queue now fresh base) j w).0 ≡ leaves now j h x r.1
  unfolding handle
  handle-leaves j f w h x has other wf there count budget =
      let w1 = transition base j enqueued running no_info w in
      ap (λ o. entry_of j.id (dispatch encode (on_queue now fresh base) j o w1).0) has
      ∙ finish-leaves j (run_handler base j f w1) h x other wf there count budget
