-- ===== src/Jobs/Inproc/Claims.antt =====
-- What holding and releasing a group key, and the loop of Dequeue, do to the counts.
use maniflex.Prelude.{
  ℕ, ◌+◌, ◌-◌, ◌≤◌, String, ◌≡◌, refl, ◌≢◌, ap, sym, inl, inr, true, false, ◌&&◌, some, [], ◌∷◌,
  arith, ◌==◌, str_eq, eq_iff, Bool-cases,
}
use maniflex.Request.Context.Map.{Map, lookup-insert, lookup-delete}
use maniflex.Jobs.Job.{
  Status, enqueued, running, succeeded, failed, dead, cancelled, is_running, is_pending,
}
use maniflex.Jobs.Inproc.Defs.{
  Entry, Entries, find, count_at, release_group, hold_group, claimable, claim, dequeue_loop,
}
use maniflex.Jobs.Inproc.Counts.{
  find-hit, find-miss, runs_under, one_if, running_under, with_id_count,
}
use maniflex.Jobs.Inproc.Finds.{Below}

-- A claim counts under the group key of the job, unless the job has none.
pub count_at-hold :
    (k key : String) (m : Map ℕ)
    → k ≢ ""
    → count_at k (hold_group key m) ≡ count_at k m + one_if (str_eq key k)
unfolding count_at
count_at-hold k key m ne =
    ground (arith, lookup-insert key k (count_at key m + 1) m, eq_iff key k, eq_iff key "")

pub count_at-release :
    (k key : String) (m : Map ℕ)
    → k ≢ ""
    → count_at k (release_group key m) ≡ count_at k m - one_if (str_eq key k)
unfolding release_group count_at
count_at-release k key m ne = ground (
  arith,
  lookup-insert key k (count_at key m - 1) m,
  lookup-delete key k m,
  eq_iff key k,
  eq_iff key "",
)

pub pending-idle : (s : Status) → is_pending s ≡ true → is_running s ≡ false
pending-idle running p = sym p
pending-idle enqueued p = refl
pending-idle succeeded p = refl
pending-idle failed p = refl
pending-idle dead p = refl
pending-idle cancelled p = refl

pub idle-uncounted :
    (k : String) (e : Entry) → is_running e.status ≡ false → one_if (runs_under k e) ≡ 0
idle-uncounted k e idle = ap (λ b. one_if (b && str_eq e.job.group_key k)) idle

-- What stands in the guards of Dequeue when they let an entry through.
pub claimable-pending :
    (now : ℕ) (keys : Map ℕ) (e : Entry) → claimable now keys e ≡ true → is_pending e.status ≡ true
unfolding claimable
claimable-pending now keys e c = ground arith

pub claimable-free :
    (k : String) (now : ℕ) (keys : Map ℕ) (e : Entry)
    → claimable now keys e ≡ true
    → k ≢ ""
    → count_at k keys ≢ 0
    → str_eq e.job.group_key k ≡ false
unfolding claimable
claimable-free k now keys e c ne held =
    ground (arith, eq_iff e.job.group_key k, eq_iff e.job.group_key "")

pub claimable-uncounted :
    (k : String) (now : ℕ) (keys : Map ℕ) (e : Entry)
    → claimable now keys e ≡ true
    → one_if (runs_under k e) ≡ 0
claimable-uncounted k now keys e c =
    idle-uncounted k e (pending-idle e.status (claimable-pending now keys e c))

-- Each claim of Dequeue is one more running entry and one more holder of its key.
pub dequeue_loop-balance :
    (k : String) (now n : ℕ) (keys : Map ℕ) (es : Entries)
    → k ≢ ""
    → running_under k (dequeue_loop now n keys es).0 + count_at k keys
      ≡ running_under k es + count_at k (dequeue_loop now n keys es).1
unfolding dequeue_loop
dequeue_loop-balance k now n keys [] ne = omega arith
dequeue_loop-balance k now n keys ((h, e) ∷ es) ne = elim (Bool-cases (n == 0)) [
  | inl full ↦ rw (full) (omega arith)
  | inr more ↦ elim (Bool-cases (claimable now keys e)) [
    | inl c ↦
        rw (more, c)
          (omega (
            arith,
            dequeue_loop-balance k now (n - 1) (hold_group e.job.group_key keys) es ne,
            count_at-hold k e.job.group_key keys ne,
            claimable-uncounted k now keys e c,
          ))
    | inr c ↦ rw (more, c) (omega (arith, dequeue_loop-balance k now n keys es ne))
  ]
]

-- A key that at most one entry holds is held by at most one after the loop.
pub dequeue_loop-exclusive :
    (k : String) (now n : ℕ) (keys : Map ℕ) (es : Entries)
    → k ≢ ""
    → count_at k keys ≤ 1
    → count_at k (dequeue_loop now n keys es).1 ≤ 1
unfolding dequeue_loop
dequeue_loop-exclusive k now n keys [] ne one = one
dequeue_loop-exclusive k now n keys ((h, e) ∷ es) ne one = elim (Bool-cases (n == 0)) [
  | inl full ↦ rw (full) one
  | inr more ↦ elim (Bool-cases (claimable now keys e)) [
    | inl c ↦
        rw (more, c)
          (dequeue_loop-exclusive k now (n - 1) (hold_group e.job.group_key keys) es ne (
            ground
              (arith, count_at-hold k e.job.group_key keys ne, claimable-free k now keys e c ne)))
    | inr c ↦ rw (more, c) (dequeue_loop-exclusive k now n keys es ne one)
  ]
]

-- The loop keeps every entry's handle and job.
pub dequeue_loop-with_id :
    (id : String) (now n : ℕ) (keys : Map ℕ) (es : Entries)
    → with_id_count id (dequeue_loop now n keys es).0 ≡ with_id_count id es
unfolding dequeue_loop
dequeue_loop-with_id id now n keys [] = refl
dequeue_loop-with_id id now n keys ((h, e) ∷ es) = elim (Bool-cases (n == 0)) [
  | inl full ↦ rw (full) refl
  | inr more ↦ elim (Bool-cases (claimable now keys e)) [
    | inl c ↦
        rw (more, c)
          (omega (arith, dequeue_loop-with_id id now (n - 1) (hold_group e.job.group_key keys) es))
    | inr c ↦ rw (more, c) (omega (arith, dequeue_loop-with_id id now n keys es))
  ]
]

pub dequeue_loop-Below :
    (m now n : ℕ) (keys : Map ℕ) (es : Entries)
    → Below m es
    → Below m (dequeue_loop now n keys es).0
unfolding dequeue_loop
dequeue_loop-Below m now n keys [] b = b
dequeue_loop-Below m now n keys ((h, e) ∷ es) b = elim (Bool-cases (n == 0)) [
  | inl full ↦ rw (full) b
  | inr more ↦ elim (Bool-cases (claimable now keys e)) [
    | inl c ↦
        rw (more, c)
          (b.0, dequeue_loop-Below m now (n - 1) (hold_group e.job.group_key keys) es b.1)
    | inr c ↦ rw (more, c) (b.0, dequeue_loop-Below m now n keys es b.1)
  ]
]

pub dequeue_loop-find :
    (g now n : ℕ) (keys : Map ℕ) (es : Entries) (x : Entry)
    → find g es ≡ some x
    → (y : Entry) × (find g (dequeue_loop now n keys es).0 ≡ some y) × (y.job ≡ x.job)
unfolding dequeue_loop find
dequeue_loop-find g now n keys [] x p = cc
dequeue_loop-find g now n keys ((h, e) ∷ es) x p = elim (Bool-cases (n == 0)) [
  | inl full ↦ rw (full) (x, p, refl)
  | inr more ↦ elim (Bool-cases (h == g)) [
    | inl hit ↦
        let same = ap (λ y. y.job) (find-hit g h e x es hit p) in
        elim (Bool-cases (claimable now keys e)) [
          | inl c ↦ rw (more, c, hit) (claim e, refl, same)
          | inr c ↦ rw (more, c, hit) (e, refl, same)
        ]
    | inr miss ↦
        let behind = find-miss g h e x es miss p in
        elim (Bool-cases (claimable now keys e)) [
          | inl c ↦
              rw (more, c, miss)
                (dequeue_loop-find g now (n - 1) (hold_group e.job.group_key keys) es x behind)
          | inr c ↦ rw (more, c, miss) (dequeue_loop-find g now n keys es x behind)
        ]
  ]
]
