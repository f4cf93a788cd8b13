-- ===== src/Jobs/Inproc/Resolve.antt =====
-- jobs/inproc/queue.go: what Dequeue hands out can be resolved, and what Nack does to it.
use maniflex.Prelude.{
  ℕ, ◌+◌, ◌-◌, ◌≤◌, String, ◌≡◌, refl, sym, ap, ◌∙◌, inl, inr, Bool, true, ◌&&◌, none, some, List,
  [], ◌∷◌, arith, any, All, All-map, leb, ◌==◌, str_eq, str_eq_refl, if◌then◌else◌, Bool-cases,
}
use maniflex.Request.Context.Map.{Map, lookup, lookup-delete}
use maniflex.Jobs.Job.{Job, enqueued, is_running, max_retry_for}
use maniflex.Jobs.Inproc.Defs.{
  Entry, Entries, Queue, ok, find, update, hold_group, claimable, claim, dequeue_loop, dequeue,
  entry_of, leave, remove_entry, nack,
}
use maniflex.Jobs.Inproc.Counts.{find-hit, find-miss, has_id, with_id_count, found-counted}
use maniflex.Jobs.Inproc.Finds.{find-update_same}
use maniflex.Jobs.Inproc.Invariant.{IsWellFormed, entry_of-found}
use maniflex.Jobs.Inproc.Preserve.{IsClaimed, entry_of-id, dequeue-IsWellFormed}

abbrev pub runs_as : String → ℕ × Entry → Bool
runs_as id x = is_running x.1.status && str_eq x.1.job.id id

-- Some entry of an id runs.
abbrev pub has_running : String → Entries → Bool
has_running id es = any (runs_as id) es

pub has_running-counted :
    (id : String) (es : Entries) → has_running id es ≡ true → 1 ≤ with_id_count id es
has_running-counted id [] h = cc
has_running-counted id ((g, x) ∷ es) h = elim (Bool-cases (str_eq x.job.id id)) [
  | inl hit ↦ rw hit (omega arith)
  | inr miss ↦ rw miss (omega (arith, has_running-counted id es (ground arith)))
]

-- The only entry of an id is the one that runs.
pub found-runs :
    (id : String) (h : ℕ) (es : Entries) (e : Entry)
    → has_running id es ≡ true
    → with_id_count id es ≤ 1
    → find h es ≡ some e
    → e.job.id ≡ id
    → is_running e.status ≡ true
unfolding find
found-runs id h [] e runs once p same = cc
found-runs id h ((g, x) ∷ es) e runs once p same = elim (Bool-cases (g == h)) [
  | inl hit ↦
      let is = find-hit h g x e es hit p in
      let named = has_id id x e is same in
      elim (Bool-cases (is_running x.status)) [
        | inl runs_now ↦ ap (λ y. is_running y.status) (sym is) ∙ runs_now
        | inr idle ↦
            let later : has_running id es ≡ true = ground arith in
            absurd (omega (arith, has_running-counted id es later, rw named at once))
      ]
  | inr miss ↦
      let behind = find-miss h g x e es miss p in
      elim (Bool-cases (str_eq x.job.id id)) [
        | inl twice ↦ absurd (omega (arith, found-counted id h es e behind same, rw twice at once))
        | inr other ↦
            found-runs id h es e (ground arith) (omega (arith, rw other at once)) behind same
      ]
]

pub has_running-cons :
    (id : String) (x : ℕ × Entry) (es : Entries)
    → has_running id es ≡ true
    → has_running id (x ∷ es) ≡ true
has_running-cons id x es h = ground arith

pub dequeue_loop-runs :
    (now n : ℕ) (keys : Map ℕ) (es : Entries)
    → All
        (λ j. has_running j.id (dequeue_loop now n keys es).0 ≡ true)
        (dequeue_loop now n keys es).2
unfolding dequeue_loop
dequeue_loop-runs now n keys [] = tt
dequeue_loop-runs now n keys ((h, e) ∷ es) = elim (Bool-cases (n == 0)) [
  | inl full ↦ simp (full) tt
  | inr more ↦ elim (Bool-cases (claimable now keys e)) [
    | inl c ↦
        let keys' = hold_group e.job.group_key keys in
        simp (more, c)
          (
            rw (str_eq_refl e.job.id) refl,
            All-map (λ j. has_running-cons j.id (h, claim e) (dequeue_loop now (n - 1) keys' es).0)
                (dequeue_loop now (n - 1) keys' es).2 (dequeue_loop-runs now (n - 1) keys' es),
          )
    | inr c ↦
        simp (more, c)
          (All-map (λ j. has_running-cons j.id (h, e) (dequeue_loop now n keys es).0)
            (dequeue_loop now n keys es).2 (dequeue_loop-runs now n keys es))
  ]
]

pub dequeue-runs :
    (now n : ℕ) (q : Queue) (js : List Job)
    → (dequeue now n q).0 ≡ ok js
    → All (λ j. has_running j.id (dequeue now n q).1.entries ≡ true) js
unfolding dequeue
dequeue-runs now n q js result = elim (Bool-cases q.closed) [
  | inl shut ↦ cc (simp (shut) at result)
  | inr ready ↦
      let result' = simp (ready) at result in
      let is : (dequeue_loop now n q.running_keys q.entries).2 ≡ js = cc in
      simp (ready) (rw (sym is) (dequeue_loop-runs now n q.running_keys q.entries))
]

-- Every job that Dequeue hands out from a well-formed queue is claimed in the queue that it leaves:
-- its id leads to an entry that runs, so that the worker may acknowledge, nack, requeue or bury it.
pub dequeue-IsClaimed :
    (now n : ℕ) (q : Queue) (js : List Job)
    → IsWellFormed q
    → (dequeue now n q).0 ≡ ok js
    → All (λ j. IsClaimed j.id (dequeue now n q).1) js
dequeue-IsClaimed now n q js w result =
    let w' = dequeue-IsWellFormed now n q w in
    All-map
      (λ j runs h e there.
        let (found, same) = entry_of-id j.id (dequeue now n q).1 h e w' there in
        found-runs j.id h (dequeue now n q).1.entries e runs (w'.unique j.id) found same)
      js (dequeue-runs now n q js result)

pub found-entry_of :
    (id : String) (q : Queue) (h : ℕ) (e : Entry)
    → lookup id q.by_id ≡ some h
    → find h q.entries ≡ some e
    → entry_of id q ≡ some (h, e)
unfolding entry_of
found-entry_of id q h e there found = ground arith

pub missing-entry_of : (id : String) (q : Queue) → lookup id q.by_id ≡ none → entry_of id q ≡ none
unfolding entry_of
missing-entry_of id q missing = ground arith

-- Nack with attempts left puts the claimed job back: it waits again, is due after the delay, and has
-- the attempts that it has spent. With the budget spent, the id is forgotten.
pub nack_budget :
    (id : String) (now delay : ℕ) (q : Queue) (h : ℕ) (e : Entry)
    → entry_of id q ≡ some (h, e)
    → entry_of id (nack id now delay q) ≡ (
        if leb (max_retry_for e.job) e.attempts
        then none
        else some (h, record e { status = enqueued; not_before = now + delay }))
unfolding nack leave remove_entry
nack_budget id now delay q h e there =
    let (named, found) = entry_of-found id q h e there in
    elim (Bool-cases (leb (max_retry_for e.job) e.attempts)) [
      | inl spent ↦
          simp (there, spent)
            (missing-entry_of id (remove_entry id (leave e q))
              (lookup-delete id id q.by_id ∙ rw (str_eq_refl id) refl))
      | inr left ↦
          let f : Entry → Entry = λ x. record x { status = enqueued; not_before = now + delay } in
          simp (there, left)
            (found-entry_of id
              (record (leave e q) { entries = update h f q.entries; notified = true }) h (f e) named
              (find-update_same h f q.entries e found))
    ]
