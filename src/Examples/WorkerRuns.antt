-- ===== src/Examples/WorkerRuns.antt =====
-- jobs/worker.go on the in-process queue, with a handler that panics on its first attempt.
use mathlib.Core.Path.{subst}
use maniflex.Prelude.{
  ℕ, ◌+◌, ◌<◌, String, ◌≡◌, refl, ◌≢◌, Option, none, some, [], ◌∷◌, arith, ltb, eq_iff,
  if◌then◌else◌,
}
use maniflex.Prelude.Itoa.{atoi}
use maniflex.Request.Context.Map.{lookup, insert, delete}
use maniflex.Jobs.Job.{Job, enqueued, running, max_retry_for}
use maniflex.Jobs.Inproc.{
  Entry, Queue, new, find, count_at, enqueue_at, claimable, dequeue_loop, dequeue, entry_of,
  requeue,
}
use maniflex.Jobs.Inproc.Invariant.{IsWellFormed}
use maniflex.Jobs.Inproc.Reachable.{here, further, enqueues, dequeues, Reaches-IsWellFormed}
use maniflex.Jobs.Inproc.Release.{Released}
use maniflex.Jobs.Worker.{
  returned, panicked, Handler, WorkerConfig, run_handler, mark_dead, bounced, transition, no_info,
  when_done, unhandled_requeue_delay, unhandled_error, unhandled_count, handle,
}
use maniflex.Jobs.Worker.OnQueue.{inproc_source, on_queue, KeepsQueue}
use maniflex.Jobs.Worker.Settles.{leaves, handle-Released, handle-leaves}
use maniflex.Jobs.Worker.Unhandled.{after_bounces, unhandled_bounded}

abbrev mail : Job
mail = record {
  id = "m1";
  type_of = "email.send";
  payload = "{}";
  trace_id = "";
  actor_id = "";
  tenant_id = "";
  max_retry = 2;
  backoff = none;
  priority = 0;
  not_before = 0;
  group_key = "";
  headers = [];
  attempts = 0;
}

-- How often the handler ran stands beside the queue.
abbrev World : Type 0
World = Queue × ℕ

abbrev flaky : Handler World
flaky j (q, n) = ((q, n + 1), if ltb j.attempts 2 then panicked "nil map" else returned "sent")

abbrev config : WorkerConfig World
config = record {
  source = inproc_source 1000 "n1";
  handlers = ("email.send", flaky) ∷ [];
  status = none;
  event_bus = none;
  on_panic = none;
  dlq_type = "";
  max_unhandled_requeues = 2;
  empty_queue_backoff = 0;
}

abbrev taken : Queue
taken = (dequeue 5 1 (enqueue_at "" mail 0 new).1).1

abbrev delivered : Job
delivered = record mail { attempts = 1 }

abbrev encode : Job → String → String
encode j e = e

abbrev held : Entry
held = record { job = mail; status = running; attempts = 1; not_before = 0 }

keeps : KeepsQueue config
keeps = record { status = λ j a b info w. refl; events = λ suffix j w. refl }

taken-IsWellFormed : IsWellFormed taken
unfolding enqueue_at
taken-IsWellFormed =
    Reaches-IsWellFormed taken (further (further here (enqueues "" mail 0 refl)) (dequeues 5 1))

taken_holds : entry_of "m1" taken ≡ some (0, held)
unfolding enqueue_at dequeue dequeue_loop claimable count_at lookup insert delete entry_of find
taken_holds = refl

fresh_id : ◌≢◌ {A = String} "n1" "m1"
fresh_id = ground (arith, eq_iff "n1" "m1")

-- What a handler that is looked up leaves of the queue.
abbrev KeepsOrder : Option (Handler World) → Type 0
KeepsOrder none = Unit
KeepsOrder (some f) = IsWellFormed (run_handler config delivered f (taken, 0)).0.0

handler_keeps :
    (f : Handler World)
    → lookup "email.send" config.handlers ≡ some f
    → IsWellFormed (run_handler config delivered f (taken, 0)).0.0
unfolding run_handler lookup
handler_keeps f is = subst KeepsOrder is taken-IsWellFormed

handle-Released_example :
    Released "m1" (handle encode (on_queue 1000 "n1" config) delivered (taken, 0)).0
handle-Released_example =
    handle-Released encode 1000 "n1" config keeps delivered (taken, 0) fresh_id taken-IsWellFormed
      handler_keeps

handle-leaves_example :
    entry_of "m1" (handle encode (on_queue 1000 "n1" config) delivered (taken, 0)).0
    ≡ leaves 1000 delivered 0 held (panicked "nil map")
unfolding run_handler lookup max_retry_for
handle-leaves_example =
    handle-leaves encode 1000 "n1" config keeps delivered flaky (taken, 0) 0 held refl fresh_id
      taken-IsWellFormed taken_holds refl refl

abbrev inproc_requeue : Job → ℕ → World → World × Option String
inproc_requeue j delay w = ((requeue j 1000 delay w.0, w.1), none)

-- No worker handles this type: its third delivery is its last.
abbrev stray : Job
stray = record delivered { type_of = "sms.send" }

unhandled_bounded_example :
    let job = after_bounces 2 stray in
    ((job.attempts ≡ 1)
      × (2 < 2
          → (after_bounces 3 stray ≡ record (bounced job) { attempts = (bounced job).attempts + 1 })
            × (handle encode config job (taken, 0)
                ≡ when_done
                    (inproc_requeue (bounced job) (unhandled_requeue_delay config) (taken, 0))
                    (λ w. transition config (bounced job) running enqueued no_info w)))
      × (◌≡◌ {A = ℕ} 2 2
          → handle encode config job (taken, 0)
            ≡ mark_dead encode config job unhandled_error (taken, 0)))
unfolding lookup unhandled_count atoi
unhandled_bounded_example =
    unhandled_bounded encode config inproc_requeue stray 2 (taken, 0) refl refl refl (omega arith)
      (omega arith)
