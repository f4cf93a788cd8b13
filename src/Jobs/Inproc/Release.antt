-- ===== src/Jobs/Inproc/Release.antt =====
-- jobs/inproc/queue.go: the operations that release a job, whatever state the queue is in.
use maniflex.Prelude.{
  ℕ, ◌+◌, String, ◌≡◌, refl, ap, ◌∙◌, ◌⊎◌, inl, inr, Bool, true, false, Option, none, some, leb,
  str_eq_refl, if◌then◌else◌, Option-cases,
}
use maniflex.Request.Context.Map.{Map, lookup, delete, lookup-delete}
use maniflex.Jobs.Job.{enqueued, succeeded, Job, max_retry_for}
use maniflex.Jobs.Inproc.Defs.{
  Entry, Queue, update, leave, remove_entry, with_status, entry_of, on_entry, pulse, ack, nack,
  requeue, requeued, dead_letter,
}
use maniflex.Jobs.Inproc.Finds.{find-update_same}
use maniflex.Jobs.Inproc.Invariant.{entry_of-found}
use maniflex.Jobs.Inproc.Resolve.{found-entry_of, missing-entry_of, nack_budget}

-- A job that is not in the queue any more, or waits in it: no worker holds it.
abbrev pub Released : String → Queue → Type 0
Released id q =
    (entry_of id q ≡ none)
    ⊎ ((h : ℕ) × (e : Entry) × (entry_of id q ≡ some (h, e)) × (e.status ≡ enqueued))

-- A queue whose byID has lost an id.
deleted-gone :
    (id : String) (r : Queue) (ids : Map ℕ) → r.by_id ≡ delete id ids → entry_of id r ≡ none
deleted-gone id r ids is =
    missing-entry_of id r (ap (lookup id) is ∙ lookup-delete id id ids ∙ rw (str_eq_refl id) refl)

pub unchanged :
    (o : Option (ℕ × Entry)) (q : Queue) (f : ℕ → Entry → Queue) → o ≡ none → on_entry o q f ≡ q
unchanged none q f h = refl
unchanged (some (g, e)) q f h = cc

pub ack-gone : (id : String) (q : Queue) → entry_of id (ack id q) ≡ none
unfolding ack remove_entry leave
ack-gone id q = elim (Option-cases (entry_of id q)) [
  | inl missing ↦
      let same : ack id q ≡ q = unchanged (entry_of id q) q _ missing in
      ap (entry_of id) same ∙ missing
  | inr ((h, e), is) ↦ simp (is) (
      deleted-gone id
        (pulse (
          remove_entry id
            (leave e (record q { entries = update h (with_status succeeded) q.entries }))))
        q.by_id refl)
]

pub dead_letter-gone : (id : String) (q : Queue) → entry_of id (dead_letter id q) ≡ none
unfolding dead_letter remove_entry leave
dead_letter-gone id q = elim (Option-cases (entry_of id q)) [
  | inl missing ↦
      let same : dead_letter id q ≡ q = unchanged (entry_of id q) q _ missing in
      ap (entry_of id) same ∙ missing
  | inr ((h, e), is) ↦
      simp (is) (deleted-gone id (pulse (remove_entry id (leave e q))) q.by_id refl)
]

Released-if :
    (id : String) (q : Queue) (b : Bool) (h : ℕ) (e : Entry)
    → e.status ≡ enqueued
    → entry_of id q ≡ (if b then none else some (h, e))
    → Released id q
Released-if id q true h e waits is = inl is
Released-if id q false h e waits is = inr (h, e, is, waits)

pub nack-missing :
    (id : String) (now delay : ℕ) (q : Queue)
    → entry_of id q ≡ none
    → entry_of id (nack id now delay q) ≡ none
unfolding nack
nack-missing id now delay q missing =
    let same : nack id now delay q ≡ q = unchanged (entry_of id q) q _ missing in
    ap (entry_of id) same ∙ missing

pub nack-Released : (id : String) (now delay : ℕ) (q : Queue) → Released id (nack id now delay q)
nack-Released id now delay q = elim (Option-cases (entry_of id q)) [
  | inl missing ↦ inl (nack-missing id now delay q missing)
  | inr ((h, e), is) ↦
      Released-if id (nack id now delay q) (leb (max_retry_for e.job) e.attempts) h
        (record e { status = enqueued; not_before = now + delay }) refl
        (nack_budget id now delay q h e is)
]

requeue-missing :
    (j : Job) (now delay : ℕ) (q : Queue)
    → entry_of j.id q ≡ none
    → entry_of j.id (requeue j now delay q) ≡ none
unfolding requeue
requeue-missing j now delay q missing =
    let same : requeue j now delay q ≡ q = unchanged (entry_of j.id q) q _ missing in
    ap (entry_of j.id) same ∙ missing

-- Requeue leaves the entry as the job that it was given, waiting until the delay is over.
pub requeue_lem :
    (j : Job) (now delay : ℕ) (q : Queue) (h : ℕ) (e : Entry)
    → entry_of j.id q ≡ some (h, e)
    → entry_of j.id (requeue j now delay q) ≡ some (h, requeued j (now + delay) e)
unfolding requeue leave
requeue_lem j now delay q h e there =
    let (named, found) = entry_of-found j.id q h e there in
    let f = requeued j (now + delay) in
    simp (there) (
      found-entry_of j.id (record (leave e q) { entries = update h f q.entries; notified = true }) h
        (f e) named (find-update_same h f q.entries e found))

pub requeue-Released : (j : Job) (now delay : ℕ) (q : Queue) → Released j.id (requeue j now delay q)
requeue-Released j now delay q = elim (Option-cases (entry_of j.id q)) [
  | inl missing ↦ inl (requeue-missing j now delay q missing)
  | inr ((h, e), is) ↦ inr (h, requeued j (now + delay) e, requeue_lem j now delay q h e is, refl)
]
