-- ===== src/Jobs/Inproc/Preserve.antt =====
-- jobs/inproc/queue.go: the operations of the consumer side preserve the invariant.
use maniflex.Prelude.{
  ℕ, ◌+◌, String, ◌≡◌, refl, ap, ◌∙◌, sym, inl, inr, true, false, some, arith, leb, Bool-cases,
  Option-cases,
}
use maniflex.Jobs.Job.{Job, enqueued, succeeded, cancelled, is_running, max_retry_for}
use maniflex.Jobs.Inproc.Defs.{
  Entry, Entries, Queue, find, update, remove_first, remove_entry, dequeue, entry_of, leave,
  with_status, ack, nack, requeued, requeue, dead_letter, cancel, pulse,
}
use maniflex.Jobs.Inproc.Counts.{
  runs_under, one_if, running_under, running_under-update, with_id_count-update,
  running_under-remove, with_id_count-remove,
}
use maniflex.Jobs.Inproc.Finds.{Below-update, Below-remove, find-update_same}
use maniflex.Jobs.Inproc.Claims.{
  idle-uncounted, dequeue_loop-balance, dequeue_loop-exclusive, dequeue_loop-with_id,
  dequeue_loop-Below, dequeue_loop-find,
}
use maniflex.Jobs.Inproc.Invariant.{
  IsWellFormed, Unique, Counted-release, entry_of-found, Indexed-update, Indexed-remove,
}

pub dequeue-IsWellFormed :
    (now n : ℕ) (q : Queue) → IsWellFormed q → IsWellFormed (dequeue now n q).1
unfolding dequeue
dequeue-IsWellFormed now n q w = elim (Bool-cases q.closed) [
  | inl shut ↦ simp (shut) w
  | inr ready ↦ simp (ready) (record {
    below = dequeue_loop-Below q.next_handle now n q.running_keys q.entries w.below;
    indexed = λ id h p.
        let (e, found, same) = w.indexed id h p in
        let (f, there, kept) = dequeue_loop-find h now n q.running_keys q.entries e found in
        (f, there, ap (λ j. j.id) kept ∙ same);
    unique =
        λ id. omega (arith, w.unique id, dequeue_loop-with_id id now n q.running_keys q.entries);
    counted = λ k ne. (
      omega (arith, (w.counted k ne).0, dequeue_loop-balance k now n q.running_keys q.entries ne),
      dequeue_loop-exclusive k now n q.running_keys q.entries ne (w.counted k ne).1,
    );
  })
]

-- The id has no entry, or its entry is claimed: what holds of a job that a worker resolves.
abbrev pub IsClaimed : String → Queue → Type 0
IsClaimed id q = (h : ℕ) (e : Entry) → entry_of id q ≡ some (h, e) → is_running e.status ≡ true

-- The entry of an id, with the id it has.
pub entry_of-id :
    (id : String) (q : Queue) (h : ℕ) (e : Entry)
    → IsWellFormed q
    → entry_of id q ≡ some (h, e)
    → (find h q.entries ≡ some e) × (e.job.id ≡ id)
entry_of-id id q h e w p =
    let (there, found) = entry_of-found id q h e p in
    let (f, found', same) = w.indexed id h there in
    let is : f ≡ e = cc in (found, ap (λ y. y.job.id) (sym is) ∙ same)

-- The claimed entry goes, and its group is released.
pub dead_letter-IsWellFormed :
    (id : String) (q : Queue) → IsClaimed id q → IsWellFormed q → IsWellFormed (dead_letter id q)
unfolding dead_letter remove_entry leave
dead_letter-IsWellFormed id q claimed w = elim (Option-cases (entry_of id q)) [
  | inl missing ↦ simp (missing) w
  | inr ((h, e), there) ↦
      let (found, same) = entry_of-id id q h e w there in
      simp (there) (record {
        below = Below-remove q.next_handle id q.entries w.below;
        indexed = Indexed-remove id q.by_id q.entries w.indexed;
        unique = λ k. omega (arith, w.unique k, with_id_count-remove k id q.entries);
        counted =
            Counted-release q.running_keys q.entries (remove_first id q.entries) e
              (λ k. running_under-remove k id h q.entries e found same (w.unique id))
              (claimed h e there) w.counted;
      })
]

-- An entry whose status alone changes, and which then goes.
pub settled :
    (k id : String) (h : ℕ) (f : Entry → Entry) (es : Entries) (e : Entry)
    → find h es ≡ some e
    → e.job.id ≡ id
    → (f e).job.id ≡ e.job.id
    → is_running (f e).status ≡ false
    → Unique es
    → running_under k (remove_first id (update h f es)) + one_if (runs_under k e)
      ≡ running_under k es
settled k id h f es e found same kept idle u = omega (
  arith,
  running_under-remove k id h (update h f es) (f e) (find-update_same h f es e found) (kept ∙ same)
      (omega (arith, u id, with_id_count-update id h f es e found kept)),
  running_under-update k h f es e found,
  idle-uncounted k (f e) idle,
)

pub ack-IsWellFormed :
    (id : String) (q : Queue) → IsClaimed id q → IsWellFormed q → IsWellFormed (ack id q)
unfolding ack remove_entry leave
ack-IsWellFormed id q claimed w = elim (Option-cases (entry_of id q)) [
  | inl missing ↦ simp (missing) w
  | inr ((h, e), there) ↦
      let (found, same) = entry_of-id id q h e w there in
      let f = with_status succeeded in
      let es = update h f q.entries in
      simp (there) (record {
        below = Below-remove q.next_handle id es (Below-update q.next_handle h f q.entries w.below);
        indexed =
            Indexed-remove id q.by_id es
              (Indexed-update q.by_id h f q.entries e found refl w.indexed);
        unique = λ k. omega (
          arith,
          w.unique k,
          with_id_count-update k h f q.entries e found refl,
          with_id_count-remove k id es,
        );
        counted =
            Counted-release q.running_keys q.entries (remove_first id es) e
              (λ k. settled k id h f q.entries e found same refl refl w.unique) (claimed h e there)
              w.counted;
      })
]

-- The entry of a claimed job is rewritten so that it no longer runs, and its group is released.
pub put_back :
    (id : String) (q : Queue) (h : ℕ) (f : Entry → Entry) (e : Entry)
    → entry_of id q ≡ some (h, e)
    → (f e).job.id ≡ e.job.id
    → is_running (f e).status ≡ false
    → is_running e.status ≡ true
    → IsWellFormed q
    → IsWellFormed (pulse (record (leave e q) { entries = update h f (leave e q).entries }))
unfolding leave
put_back id q h f e there kept idle claimed w =
    let (found, same) = entry_of-id id q h e w there in
    record {
      below = Below-update q.next_handle h f q.entries w.below;
      indexed = Indexed-update q.by_id h f q.entries e found kept w.indexed;
      unique = λ k. omega (arith, w.unique k, with_id_count-update k h f q.entries e found kept);
      counted =
          Counted-release q.running_keys q.entries (update h f q.entries) e
            (λ k.
              omega
                (arith, running_under-update k h f q.entries e found, idle-uncounted k (f e) idle))
            claimed w.counted;
    }

pub nack-IsWellFormed :
    (id : String) (now delay : ℕ) (q : Queue)
    → IsClaimed id q
    → IsWellFormed q
    → IsWellFormed (nack id now delay q)
unfolding nack remove_entry leave dead_letter
nack-IsWellFormed id now delay q claimed w = elim (Option-cases (entry_of id q)) [
  | inl missing ↦ simp (missing) w
  | inr ((h, e), there) ↦ elim (Bool-cases (leb (max_retry_for e.job) e.attempts)) [
    | inl spent ↦
        let d = dead_letter-IsWellFormed id q claimed w in
        let d' = simp (there) at d in
        simp (there, spent)
          (record {
            below = d'.below;
            indexed = d'.indexed;
            unique = d'.unique;
            counted = d'.counted;
          })
    | inr left ↦
        let f : Entry → Entry = λ x. record x { status = enqueued; not_before = now + delay } in
        simp (there, left) (put_back id q h f e there refl refl (claimed h e there) w)
  ]
]

pub requeue-IsWellFormed :
    (j : Job) (now delay : ℕ) (q : Queue)
    → IsClaimed j.id q
    → IsWellFormed q
    → IsWellFormed (requeue j now delay q)
unfolding requeue
requeue-IsWellFormed j now delay q claimed w = elim (Option-cases (entry_of j.id q)) [
  | inl missing ↦ simp (missing) w
  | inr ((h, e), there) ↦
      let (found, same) = entry_of-id j.id q h e w there in
      simp (there)
        (put_back j.id q h (requeued j (now + delay)) e there (sym same) refl (claimed h e there) w)
]

-- Cancel needs no claim: it refuses a job that runs.
pub cancel-IsWellFormed : (id : String) (q : Queue) → IsWellFormed q → IsWellFormed (cancel id q).1
unfolding cancel remove_entry
cancel-IsWellFormed id q w = elim (Option-cases (entry_of id q)) [
  | inl missing ↦ simp (missing) w
  | inr ((h, e), there) ↦ elim (Bool-cases (is_running e.status)) [
    | inl runs ↦ simp (there, runs) w
    | inr idle ↦
        let (found, same) = entry_of-id id q h e w there in
        let f = with_status cancelled in
        let es = update h f q.entries in
        simp (there, idle)
          (record {
            below =
                Below-remove q.next_handle id es (Below-update q.next_handle h f q.entries w.below);
            indexed =
                Indexed-remove id q.by_id es
                  (Indexed-update q.by_id h f q.entries e found refl w.indexed);
            unique = λ k. omega (
              arith,
              w.unique k,
              with_id_count-update k h f q.entries e found refl,
              with_id_count-remove k id es,
            );
            counted = λ k ne. (
              omega (
                arith,
                settled k id h f q.entries e found same refl refl w.unique,
                idle-uncounted k e idle,
                (w.counted k ne).0,
              ),
              (w.counted k ne).1,
            );
          })
  ]
]
