-- ===== src/Jobs/Inproc/Take.antt =====
-- jobs/inproc/queue.go, Dequeue: which jobs it takes, in which order, and what it leaves.
use maniflex.Prelude.{
  ℕ, ◌+◌, ◌-◌, ◌≤◌, ◌<◌, String, ◌≡◌, refl, ◌≢◌, ap, inl, inr, true, false, List, [], ◌∷◌, arith,
  ◌==◌, str_eq, eq_iff, Bool-cases, length, count, All,
}
use maniflex.Request.Context.Map.{Map}
use maniflex.Jobs.Job.{Job, is_pending}
use maniflex.Jobs.Inproc.Defs.{
  Entry, Entries, Queue, count_at, hold_group, claimable, claim, picked_job, dequeue_loop, dequeue,
  ok,
}
use maniflex.Jobs.Inproc.Counts.{running_under}
use maniflex.Jobs.Inproc.Invariant.{IsWellFormed}
use maniflex.Jobs.Inproc.Claims.{count_at-hold, dequeue_loop-exclusive}

-- The jobs are those of entries that wait and are due, in the order of the entries, each with one
-- attempt more.
pub data Picks (now : ℕ) : Entries → List Job → Type 0 where
  stops : {es : Entries} → Picks now es []
  passes :
      {h : ℕ} {e : Entry} {es : Entries} {js : List Job}
      → Picks now es js
      → Picks now ((h, e) ∷ es) js
  takes :
      {h : ℕ} {e : Entry} {es : Entries} {js : List Job}
      → is_pending e.status ≡ true
      → e.not_before ≤ now
      → Picks now es js
      → Picks now ((h, e) ∷ es) (picked_job e ∷ js)

pub claimable-due :
    (now : ℕ) (keys : Map ℕ) (e : Entry)
    → claimable now keys e ≡ true
    → (is_pending e.status ≡ true) × (e.not_before ≤ now)
unfolding claimable
claimable-due now keys e c = (ground arith, ground arith)

pub dequeue_loop-Picks :
    (now n : ℕ) (keys : Map ℕ) (es : Entries) → Picks now es (dequeue_loop now n keys es).2
unfolding dequeue_loop
dequeue_loop-Picks now n keys [] = stops
dequeue_loop-Picks now n keys ((h, e) ∷ es) = elim (Bool-cases (n == 0)) [
  | inl full ↦ rw (full) stops
  | inr more ↦ elim (Bool-cases (claimable now keys e)) [
    | inl c ↦
        let (pending, due) = claimable-due now keys e c in
        rw (more, c)
          (takes pending due (dequeue_loop-Picks now (n - 1) (hold_group e.job.group_key keys) es))
    | inr c ↦ rw (more, c) (passes (dequeue_loop-Picks now n keys es))
  ]
]

pub dequeue_loop-length :
    (now n : ℕ) (keys : Map ℕ) (es : Entries) → length (dequeue_loop now n keys es).2 ≤ n
unfolding dequeue_loop
dequeue_loop-length now n keys [] = omega arith
dequeue_loop-length now n keys ((h, e) ∷ es) = elim (Bool-cases (n == 0)) [
  | inl full ↦ rw (full) (omega arith)
  | inr more ↦ elim (Bool-cases (claimable now keys e)) [
    | inl c ↦
        rw (more, c)
          (ground (arith, dequeue_loop-length now (n - 1) (hold_group e.job.group_key keys) es))
    | inr c ↦ rw (more, c) (dequeue_loop-length now n keys es)
  ]
]

-- Every job of a group that is taken is one more holder of the group.
pub dequeue_loop-groups :
    (k : String) (now n : ℕ) (keys : Map ℕ) (es : Entries)
    → k ≢ ""
    → count (λ j. str_eq j.group_key k) (dequeue_loop now n keys es).2 + count_at k keys
      ≡ count_at k (dequeue_loop now n keys es).1
unfolding dequeue_loop
dequeue_loop-groups k now n keys [] ne = omega arith
dequeue_loop-groups k now n keys ((h, e) ∷ es) ne = elim (Bool-cases (n == 0)) [
  | inl full ↦ rw (full) (omega arith)
  | inr more ↦ elim (Bool-cases (claimable now keys e)) [
    | inl c ↦
        rw (more, c)
          (omega (
            arith,
            dequeue_loop-groups k now (n - 1) (hold_group e.job.group_key keys) es ne,
            count_at-hold k e.job.group_key keys ne,
          ))
    | inr c ↦ rw (more, c) (dequeue_loop-groups k now n keys es ne)
  ]
]

-- No entry is left that could still be taken.
abbrev pub Exhausted : ℕ → Map ℕ → Entries → Type 0
Exhausted now keys es = All (λ x. claimable now keys x.1 ≡ false) es

-- A group that more jobs hold blocks at least as much.
pub claimable-antitone :
    (now : ℕ) (keys keys' : Map ℕ) (e : Entry)
    → ((k : String) → k ≢ "" → count_at k keys ≤ count_at k keys')
    → claimable now keys e ≡ false
    → claimable now keys' e ≡ false
unfolding claimable
claimable-antitone now keys keys' e more shut = elim (Bool-cases (str_eq e.job.group_key "")) [
  | inl free ↦ ground arith
  | inr grouped ↦
      ground (arith, more e.job.group_key (λ is. ground (arith, eq_iff e.job.group_key "")))
]

-- An entry that was just claimed does not wait any more.
pub claimed-unclaimable :
    (now : ℕ) (keys : Map ℕ) (e : Entry) → claimable now keys (claim e) ≡ false
unfolding claimable
claimed-unclaimable now keys e = refl

pub count_at-grows :
    (now n : ℕ) (keys : Map ℕ) (es : Entries) (k : String)
    → k ≢ ""
    → count_at k keys ≤ count_at k (dequeue_loop now n keys es).1
count_at-grows now n keys es k ne = omega (arith, dequeue_loop-groups k now n keys es ne)

pub dequeue_loop-exhausts :
    (now n : ℕ) (keys : Map ℕ) (es : Entries)
    → length (dequeue_loop now n keys es).2 < n
    → Exhausted now (dequeue_loop now n keys es).1 (dequeue_loop now n keys es).0
unfolding dequeue_loop
dequeue_loop-exhausts now n keys [] fewer = tt
dequeue_loop-exhausts now n keys ((h, e) ∷ es) fewer = elim (Bool-cases (n == 0)) [
  | inl full ↦ ground arith
  | inr more ↦ elim (Bool-cases (claimable now keys e)) [
    | inl c ↦
        let keys' = hold_group e.job.group_key keys in
        let fewer' = simp (more, c) at fewer in
        simp (more, c)
          (
            claimed-unclaimable now (dequeue_loop now (n - 1) keys' es).1 e,
            dequeue_loop-exhausts now (n - 1) keys' es (omega (arith, fewer')),
          )
    | inr c ↦
        simp (more, c)
          (
            claimable-antitone now keys (dequeue_loop now n keys es).1 e
                (count_at-grows now n keys es) c,
            dequeue_loop-exhausts now n keys es (simp (more, c) at fewer),
          )
  ]
]

-- Dequeue on an open queue hands out at most n jobs: those of entries that wait and are due, in the
-- order of the queue, each with one attempt more.
pub dequeue_takes :
    (now n : ℕ) (q : Queue)
    → q.closed ≡ false
    → (js : List Job) × ((dequeue now n q).0 ≡ ok js) × Picks now q.entries js × (length js ≤ n)
unfolding dequeue
dequeue_takes now n q ready = (
  (dequeue_loop now n q.running_keys q.entries).2,
  simp (ready) refl,
  dequeue_loop-Picks now n q.running_keys q.entries,
  dequeue_loop-length now n q.running_keys q.entries,
)

-- When Dequeue hands out fewer than the n jobs it was asked for, no entry of the queue it leaves
-- passes the guards of the loop: what could be taken was taken.
pub dequeue_exhausts :
    (now n : ℕ) (q : Queue) (js : List Job)
    → (dequeue now n q).0 ≡ ok js
    → length js < n
    → Exhausted now (dequeue now n q).1.running_keys (dequeue now n q).1.entries
unfolding dequeue
dequeue_exhausts now n q js result fewer = elim (Bool-cases q.closed) [
  | inl shut ↦ cc (simp (shut) at result)
  | inr ready ↦
      let result' = simp (ready) at result in
      let is : (dequeue_loop now n q.running_keys q.entries).2 ≡ js = cc in
      simp (ready)
        (dequeue_loop-exhausts now n q.running_keys q.entries (omega (arith, ap length is, fewer)))
]

-- In a queue whose runningKeys counts the running entries, a batch holds at most one job of a group
-- key, and none when a job of the group already runs.
pub dequeue_group_once :
    (k : String) (now n : ℕ) (q : Queue) (js : List Job)
    → IsWellFormed q
    → k ≢ ""
    → (dequeue now n q).0 ≡ ok js
    → count (λ j. str_eq j.group_key k) js + running_under k q.entries ≤ 1
unfolding dequeue
dequeue_group_once k now n q js w ne result = elim (Bool-cases q.closed) [
  | inl shut ↦ cc (simp (shut) at result)
  | inr ready ↦
      let result' = simp (ready) at result in
      let is : (dequeue_loop now n q.running_keys q.entries).2 ≡ js = cc in
      omega (
        arith,
        ap (count (λ j. str_eq j.group_key k)) is,
        (w.counted k ne).0,
        dequeue_loop-groups k now n q.running_keys q.entries ne,
        dequeue_loop-exclusive k now n q.running_keys q.entries ne (w.counted k ne).1,
      )
]
