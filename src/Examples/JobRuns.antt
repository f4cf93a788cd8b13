-- ===== src/Examples/JobRuns.antt =====
-- jobs/inproc/queue.go and jobs/backoff.go on concrete queues.
use maniflex.Prelude.{
  ℕ, ◌≤◌, String, ◌≡◌, refl, sym, ap, Bool, true, false, Option, none, some, List, [], ◌∷◌, arith,
  length, leb, if◌then◌else◌,
}
use maniflex.Request.Context.Map.{lookup, insert, delete}
use maniflex.Jobs.Job.{Job, ListQuery, enqueued, running, is_running, max_retry_for}
use maniflex.Jobs.Backoff.{ExponentialBackoff}
use maniflex.Jobs.Inproc.{
  Entry, Queue, ok, new, find, update, remove_first, count_at, release_group, remove_entry,
  enqueue_at, claimable, dequeue_loop, dequeue, entry_of, leave, ack, nack, matches, list_loop,
  list_jobs,
}
use maniflex.Jobs.Inproc.Counts.{running_under}
use maniflex.Jobs.Inproc.Invariant.{IsWellFormed}
use maniflex.Jobs.Inproc.Preserve.{IsClaimed}
use maniflex.Jobs.Inproc.Reachable.{
  Reaches, here, further, enqueues, dequeues, acks, Reaches-IsWellFormed, group_exclusive,
}
use maniflex.Jobs.Inproc.Resolve.{nack_budget}
use maniflex.Jobs.Inproc.Take.{Picks, Exhausted, dequeue_takes, dequeue_exhausts}

abbrev job : String → String → Job
job id group = record {
  id = id;
  type_of = "email.send";
  payload = "{}";
  trace_id = "";
  actor_id = "";
  tenant_id = "";
  max_retry = 0;
  backoff = none;
  priority = 0;
  not_before = 0;
  group_key = group;
  headers = [];
  attempts = 0;
}

-- Two jobs of a group and one of none are due; one is not.
abbrev filled : Queue
filled =
    (enqueue_at "" (job "d" "") 90
      (enqueue_at "" (job "c" "") 3
        (enqueue_at "" (job "b" "invoice") 2 (enqueue_at "" (job "a" "invoice") 1 new).1).1).1).1

abbrev claimed : Queue
claimed = (dequeue 10 5 filled).1

-- The second job of the group and the one that is not due are left.
claims_in_order :
    (dequeue 10 5 filled).0
    ≡ ok (record (job "a" "invoice") { attempts = 1 } ∷ record (job "c" "") { attempts = 1 } ∷ [])
unfolding enqueue_at dequeue dequeue_loop claimable count_at lookup insert delete
claims_in_order = refl

group_is_freed :
    (dequeue 10 5 (ack "a" claimed)).0 ≡ ok (record (job "b" "invoice") { attempts = 1 } ∷ [])
unfolding enqueue_at dequeue dequeue_loop claimable count_at lookup insert delete ack entry_of leave
    release_group remove_entry remove_first find update
group_is_freed = refl

filled_reached : Reaches new filled
unfolding enqueue_at
filled_reached =
    further
      (further
        (further (further here (enqueues "" (job "a" "invoice") 1 refl))
          (enqueues "" (job "b" "invoice") 2 refl))
        (enqueues "" (job "c" "") 3 refl))
      (enqueues "" (job "d" "") 90 refl)

reached : Reaches new claimed
reached = further filled_reached (dequeues 10 5)

Reaches-IsWellFormed_example : IsWellFormed claimed
Reaches-IsWellFormed_example = Reaches-IsWellFormed claimed reached

group_exclusive_example :
    (running_under "invoice" claimed.entries ≤ 1)
    × (running_under "invoice" claimed.entries ≡ count_at "invoice" claimed.running_keys)
group_exclusive_example = group_exclusive claimed "invoice" reached (cc)

abbrev entry_runs : Option (ℕ × Entry) → Bool
entry_runs none = true
entry_runs (some (h, e)) = is_running e.status

running_a : IsClaimed "a" claimed
unfolding enqueue_at dequeue dequeue_loop claimable count_at lookup insert delete entry_of find
running_a h e p = sym (ap entry_runs p)

filled_open : filled.closed ≡ false
unfolding enqueue_at
filled_open = refl

dequeue_takes_example :
    (js : List Job) × ((dequeue 10 5 filled).0 ≡ ok js)
    × Picks 10 filled.entries js
    × (length js ≤ 5)
dequeue_takes_example = dequeue_takes 10 5 filled filled_open

dequeue_exhausts_example :
    Exhausted 10 (dequeue 10 5 filled).1.running_keys (dequeue 10 5 filled).1.entries
dequeue_exhausts_example =
    dequeue_exhausts 10 5 filled
      (record (job "a" "invoice") { attempts = 1 } ∷ record (job "c" "") { attempts = 1 } ∷ [])
      claims_in_order (omega arith)

acked : IsWellFormed (ack "a" claimed)
acked = Reaches-IsWellFormed (ack "a" claimed) (further reached (acks "a" running_a))

abbrev query : ListQuery
query = record {
  type_of = "email.send";
  status = some enqueued;
  tenant_id = "";
  actor_id = "";
  limit = 1;
  offset = 1;
}

second_of_the_waiting :
    list_jobs query claimed ≡ record { job = job "d" ""; status = enqueued } ∷ []
unfolding enqueue_at dequeue dequeue_loop claimable count_at lookup insert delete list_jobs
    list_loop matches
second_of_the_waiting = refl

-- Base 24h with Max 5m, at attempt 17.
abbrev daily : ExponentialBackoff
daily = record { base = 86400000000000; max = 300000000000 }

abbrev running_c : Entry
running_c = record { job = job "c" ""; status = running; attempts = 1; not_before = 3 }

finds_c : entry_of "c" claimed ≡ some (2, running_c)
unfolding enqueue_at dequeue dequeue_loop claimable count_at lookup insert delete entry_of find
finds_c = refl

nack_budget_example : entry_of "c" (nack "c" 20 7 claimed) ≡ (
    if leb (max_retry_for (job "c" "")) 1
    then none
    else some (2, record running_c { status = enqueued; not_before = 27 }))
nack_budget_example = nack_budget "c" 20 7 claimed 2 running_c finds_c
