-- ===== src/Jobs/Inproc/Reachable.antt =====
-- jobs/inproc/queue.go: the histories of a queue whose callers enqueue ids that are not live and
-- resolve only jobs that were claimed, as jobs.Worker does.
use maniflex.Prelude.{ℕ, ◌≤◌, String, ◌≡◌, ◌≢◌, arith}
use maniflex.Jobs.Job.{Job}
use maniflex.Jobs.Inproc.Defs.{
  Queue, new, with_id, enqueue_at, dequeue, ack, nack, requeue, dead_letter, cancel, close,
  count_at,
}
use maniflex.Jobs.Inproc.Counts.{running_under, with_id_count}
use maniflex.Jobs.Inproc.Invariant.{IsWellFormed, new-IsWellFormed, enqueue_at-IsWellFormed}
use maniflex.Jobs.Inproc.Preserve.{
  IsClaimed, dequeue-IsWellFormed, ack-IsWellFormed, nack-IsWellFormed, requeue-IsWellFormed,
  dead_letter-IsWellFormed, cancel-IsWellFormed,
}

-- One call of the queue.
pub data Step (q : Queue) : Queue → Type 0 where
  enqueues :
      (fresh : String) (j : Job) (at : ℕ)
      → with_id_count (with_id fresh j).id q.entries ≡ 0
      → Step q (enqueue_at fresh j at q).1
  dequeues : (now n : ℕ) → Step q (dequeue now n q).1
  acks : (id : String) → IsClaimed id q → Step q (ack id q)
  nacks : (id : String) (now delay : ℕ) → IsClaimed id q → Step q (nack id now delay q)
  requeues : (j : Job) (now delay : ℕ) → IsClaimed j.id q → Step q (requeue j now delay q)
  dead_letters : (id : String) → IsClaimed id q → Step q (dead_letter id q)
  cancels : (id : String) → Step q (cancel id q).1
  closes : Step q (close q)

-- The states that calls lead to from a queue.
pub data Reaches (q : Queue) : Queue → Type 0 where
  here : Reaches q q
  further : {r s : Queue} → Reaches q r → Step r s → Reaches q s

pub Step-IsWellFormed : {q r : Queue} → Step q r → IsWellFormed q → IsWellFormed r
Step-IsWellFormed {q = q} (enqueues fresh j at unused) w =
    enqueue_at-IsWellFormed fresh j at q unused w
Step-IsWellFormed {q = q} (dequeues now n) w = dequeue-IsWellFormed now n q w
Step-IsWellFormed {q = q} (acks id c) w = ack-IsWellFormed id q c w
Step-IsWellFormed {q = q} (nacks id now delay c) w = nack-IsWellFormed id now delay q c w
Step-IsWellFormed {q = q} (requeues j now delay c) w = requeue-IsWellFormed j now delay q c w
Step-IsWellFormed {q = q} (dead_letters id c) w = dead_letter-IsWellFormed id q c w
Step-IsWellFormed {q = q} (cancels id) w = cancel-IsWellFormed id q w
Step-IsWellFormed closes w = record {
  below = w.below;
  indexed = w.indexed;
  unique = w.unique;
  counted = w.counted;
}

-- A queue that starts empty keeps the invariant through every history of calls that enqueue only ids
-- that are not live and resolve only jobs that are claimed: handles are below the next one, byID leads
-- to entries that carry the id, no id is there twice, and runningKeys counts the running entries of
-- each group.
pub Reaches-IsWellFormed : (q : Queue) → Reaches new q → IsWellFormed q
Reaches-IsWellFormed _ here = new-IsWellFormed
Reaches-IsWellFormed _ (further r s) = Step-IsWellFormed s (Reaches-IsWellFormed _ r)

-- In every state that a queue reaches from empty, by calls that enqueue only ids that are not live and
-- resolve only jobs that are claimed, at most one job of a group key runs, and runningKeys says how
-- many do.
pub group_exclusive :
    (q : Queue) (k : String)
    → Reaches new q
    → k ≢ ""
    → (running_under k q.entries ≤ 1) × (running_under k q.entries ≡ count_at k q.running_keys)
group_exclusive q k r ne =
    let (same, one) = (Reaches-IsWellFormed q r).counted k ne in (omega (arith, same, one), same)
