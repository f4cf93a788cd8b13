-- ===== src/Jobs/Worker/OnQueue.antt =====
-- jobs/worker.go on jobs/inproc/queue.go: the parts of a worker on the in-process queue.
use maniflex.Prelude.{
  ℕ, ◌+◌, String, ◌≡◌, refl, ◌≢◌, ap, ◌∙◌, inl, inr, false, Option, none, some, arith, leb, str_eq,
  str_eq_refl, eq_iff, if◌then◌else◌, Bool-cases, Option-cases,
}
use maniflex.Request.Context.Map.{lookup, lookup-insert, lookup-delete}
use maniflex.Jobs.Job.{Status, enqueued, running, failed, dead, Job, max_retry_for}
use maniflex.Jobs.Backoff.{backoff_for}
use maniflex.Jobs.Inproc.{
  Entry, Queue, Result, ok, err, entry_of, ack, nack, requeue, dead_letter, enqueue_at,
  remove_entry, leave,
}
use maniflex.Jobs.Inproc.Invariant.{IsWellFormed}
use maniflex.Jobs.Inproc.Resolve.{nack_budget, missing-entry_of, found-entry_of}
use maniflex.Jobs.Inproc.Release.{Released, unchanged, nack-Released, requeue-Released}
use maniflex.Jobs.Worker.Defs.{
  Source, StatusInfo, WorkerConfig, no_info, failure, bounced, transition, publish_job_event,
  mark_dead, bounce, retry_or_bury, dlq_copy, no_handler, unhandled_requeue_delay,
}

-- Which error Enqueue returns.
abbrev enqueue_error : Result String → Option String
enqueue_error (ok id) = none
enqueue_error (err f) = some "jobs: queue is closed"

module _ {U : Type 0} where
  -- The in-process queue as the source of a worker, beside any other state, with the time of the calls
  -- and the id that Enqueue mints.
  abbrev pub inproc_source : ℕ → String → Source (Queue × U)
  inproc_source now fresh = record {
    ack = λ id w. ((ack id w.0, w.1), none);
    nack = λ id e delay w. ((nack id now delay w.0, w.1), none);
    bury = λ id e w. ((dead_letter id w.0, w.1), none);
    requeue = some (λ j delay w. ((requeue j now delay w.0, w.1), none));
    enqueue = some (λ j w. let r = enqueue_at fresh j now w.0 in ((r.1, w.1), enqueue_error r.0));
  }

  -- A worker on the queue.
  abbrev pub on_queue : ℕ → String → WorkerConfig (Queue × U) → WorkerConfig (Queue × U)
  on_queue now fresh cfg = record cfg { source = inproc_source now fresh }

  -- The status store and the event bus are not the queue.
  pub record KeepsQueue (cfg : WorkerConfig (Queue × U)) : Type 0 where
    pub status :
        (j : Job) (from to : Status) (info : StatusInfo) (w : Queue × U)
        → (transition cfg j from to info w).0 ≡ w.0
    pub events :
        (suffix : String) (j : Job) (w : Queue × U) → (publish_job_event cfg j suffix w).0 ≡ w.0

enqueue-missing :
    (fresh id : String) (j : Job) (at : ℕ) (q : Queue)
    → fresh ≢ id
    → lookup id q.by_id ≡ none
    → lookup id (enqueue_at fresh (record j { id = "" }) at q).1.by_id ≡ none
unfolding enqueue_at
enqueue-missing fresh id j at q other missing = elim (Bool-cases q.closed) [
  | inl shut ↦ simp (shut) missing
  | inr ready ↦
      simp (ready)
        (lookup-insert fresh id q.next_handle q.by_id ∙ (ground (arith, eq_iff fresh id, missing)))
]

-- With byID in order, a dead job's id is forgotten.
dead_letter-missing :
    (id : String) (q : Queue) → IsWellFormed q → lookup id (dead_letter id q).by_id ≡ none
unfolding dead_letter remove_entry leave
dead_letter-missing id q w = elim (Option-cases (lookup id q.by_id)) [
  | inl missing ↦
      let same : dead_letter id q ≡ q =
        unchanged (entry_of id q) q _ (missing-entry_of id q missing) in
      ap (λ r. lookup id r.by_id) same ∙ missing
  | inr (h, named) ↦
      let (e, found, is) = w.indexed id h named in
      simp (found-entry_of id q h e named found)
        (lookup-delete id id q.by_id ∙ rw (str_eq_refl id) refl)
]

-- What a failed attempt leaves of the entry that was claimed.
abbrev pub retried : ℕ → Job → ℕ → Entry → Option (ℕ × Entry)
retried now j h x =
    if leb (max_retry_for j) j.attempts
    then none
    else some (h, record x { status = enqueued; not_before = now + backoff_for j j.attempts })

module _ {U : Type 0} (encode : Job → String → String) (now : ℕ) (fresh : String)
    (base : WorkerConfig (Queue × U)) (keeps : KeepsQueue base) where
  dlq_copy-missing :
      (j : Job) (e : String) (w : Queue × U) (id : String)
      → fresh ≢ id
      → lookup id w.0.by_id ≡ none
      → lookup id (dlq_copy encode (on_queue now fresh base) j e w).0.by_id ≡ none
  dlq_copy-missing j e w id other missing = elim (Bool-cases (str_eq base.dlq_type "")) [
    | inl unset ↦ rw unset missing
    | inr there ↦ rw there (elim (Bool-cases (no_handler (lookup base.dlq_type base.handlers))) [
      | inl unhandled ↦ rw unhandled missing
      | inr handled ↦ rw handled (
          enqueue-missing fresh id (record j { type_of = base.dlq_type; payload = encode j e }) now
            w.0 other missing)
    ])
  ]

  pub mark_dead-gone :
      (j : Job) (e : String) (w : Queue × U)
      → fresh ≢ j.id
      → IsWellFormed w.0
      → entry_of j.id (mark_dead encode (on_queue now fresh base) j e w).0 ≡ none
  unfolding mark_dead
  mark_dead-gone j e w other wf =
      let w1 = transition base j running dead (failure e) w in
      let w2 = publish_job_event base j "failed" w1 in
      let same : w2.0 ≡ w.0 =
        keeps.events "failed" j w1 ∙ keeps.status j running dead (failure e) w in
      let forgotten =
        ap (λ q. lookup j.id (dead_letter j.id q).by_id) same ∙ dead_letter-missing j.id w.0 wf in
      let buried : Queue × U = (dead_letter j.id w2.0, w2.1) in
      missing-entry_of j.id (dlq_copy encode (on_queue now fresh base) j e buried).0
        (dlq_copy-missing j e buried j.id other forgotten)

  pub bounce-Released :
      (j : Job) (w : Queue × U)
      → Released j.id
          (bounce
            (on_queue now fresh base)
            (λ job delay v. ((requeue job now delay v.0, v.1), none))
            j
            w).0
  unfolding bounced
  bounce-Released j w =
      let delay = unhandled_requeue_delay base in
      let w' : Queue × U = (requeue (bounced j) now delay w.0, w.1) in
      let same = keeps.status (bounced j) running enqueued no_info w' in
      rw same (requeue-Released (bounced j) now delay w.0)

  pub retry_or_bury-Released :
      (j : Job) (e : String) (w : Queue × U)
      → fresh ≢ j.id
      → IsWellFormed w.0
      → Released j.id (retry_or_bury encode (on_queue now fresh base) j e w).0
  retry_or_bury-Released j e w other wf = elim (Bool-cases (leb (max_retry_for j) j.attempts)) [
    | inl spent ↦ rw spent (inl (mark_dead-gone j e w other wf))
    | inr left ↦ rw left (
        nack-Released j.id now (backoff_for j j.attempts)
          (transition base j running failed (failure e) w).0)
  ]

  pub retry_or_bury-retried :
      (j : Job) (e : String) (w : Queue × U) (h : ℕ) (x : Entry)
      → fresh ≢ j.id
      → IsWellFormed w.0
      → entry_of j.id w.0 ≡ some (h, x)
      → x.attempts ≡ j.attempts
      → max_retry_for x.job ≡ max_retry_for j
      → entry_of j.id (retry_or_bury encode (on_queue now fresh base) j e w).0 ≡ retried now j h x
  retry_or_bury-retried j e w h x other wf there count budget =
      elim (Bool-cases (leb (max_retry_for j) j.attempts)) [
        | inl spent ↦ rw spent (mark_dead-gone j e w other wf)
        | inr left ↦
            let w1 = transition base j running failed (failure e) w in
            let delay = backoff_for j j.attempts in
            let same = keeps.status j running failed (failure e) w in
            let unspent : leb (max_retry_for x.job) x.attempts ≡ false = rw (count, budget) left in
            rw left (
              ap (λ q. entry_of j.id (nack j.id now delay q)) same
              ∙ nack_budget j.id now delay w.0 h x there
              ∙ rw unspent)
      ]
