-- ===== src/Jobs/Inproc/Queries.antt =====
-- jobs/inproc/queue.go: the operations that only read the queue.
use maniflex.Prelude.{
  ℕ, ◌-◌, String, Bool, true, not, ◌&&◌, ◌||◌, Option, none, some, List, [], ◌∷◌, ltb, leb, ◌==◌,
  str_eq, if◌then◌else◌,
}
use maniflex.Jobs.Job.{Status, is_pending, status_eq, JobState, ListQuery}
use maniflex.Jobs.Inproc.Defs.{
  Entry, Entries, Queue, Result, ok, err, not_found, entry_of, on_entry,
}

unfoldable pub get : String → Queue → Result JobState
unfolding entry_of
get id q =
    on_entry (entry_of id q) (err (not_found id))
      λ h e. ok (record { job = e.job; status = e.status })

-- The filters of List, in its order.
abbrev pub status_matches : Option Status → Status → Bool
status_matches none s = true
status_matches (some t) s = status_eq s t

abbrev pub text_matches : String → String → Bool
text_matches wanted actual = str_eq wanted "" || str_eq actual wanted

unfoldable pub matches : ListQuery → Entry → Bool
matches qry e =
    status_matches qry.status e.status
    && (text_matches qry.type_of e.job.type_of
        && (text_matches qry.actor_id e.job.actor_id && text_matches qry.tenant_id e.job.tenant_id))

abbrev pub state_of : Entry → JobState
state_of e = record { job = e.job; status = e.status }

-- The loop of List: how many are still to be skipped, how many may still be returned (at least one).
unfoldable pub list_loop : ListQuery → ℕ → ℕ → Entries → List JobState
unfolding matches
list_loop qry skip room [] = []
list_loop qry skip room ((h, e) ∷ es) =
    let passed = list_loop qry skip room es in
    let skipped = list_loop qry (skip - 1) room es in
    let taken = list_loop qry skip (room - 1) es in
    if not (matches qry e)
    then passed
    else if ltb 0 skip
    then skipped
    else if leb room 1
    then state_of e ∷ []
    else state_of e ∷ taken

unfoldable pub list_jobs : ListQuery → Queue → List JobState
unfolding list_loop
list_jobs qry q = list_loop qry qry.offset (if qry.limit == 0 then 100 else qry.limit) q.entries

-- earliestPending: the soonest due time of an entry that waits for its turn and is not due yet.
abbrev pub sooner : Option ℕ → ℕ → Bool
sooner none t = true
sooner (some earliest) t = ltb t earliest

unfoldable pub earliest_loop : ℕ → Option ℕ → Entries → Option ℕ
earliest_loop now earliest [] = earliest
earliest_loop now earliest ((h, e) ∷ es) =
    earliest_loop now
      (if is_pending e.status && (ltb now e.not_before && sooner earliest e.not_before)
        then some e.not_before
        else earliest)
      es

unfoldable pub earliest_pending : ℕ → Queue → Option ℕ
unfolding earliest_loop
earliest_pending now q = earliest_loop now none q.entries
