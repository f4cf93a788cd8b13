-- ===== src/Jobs/Inproc/Invariant.antt =====
-- jobs/inproc/queue.go: the invariant that the queue's operations preserve, and the states that the
-- operations reach when ids are fresh and only claimed jobs are resolved.
use maniflex.Prelude.{
  ℕ, ◌+◌, ◌≤◌, String, ◌≡◌, refl, ◌≢◌, ap, ◌∙◌, sym, inl, inr, true, ◌&&◌, some, [], ◌∷◌, ◌++◌,
  arith, ◌==◌, str_eq, eq_iff, Bool-cases,
}
use maniflex.Request.Context.Map.{Map, lookup, insert, delete, lookup-insert, lookup-delete}
use maniflex.Jobs.Job.{Job, enqueued, is_running}
use maniflex.Jobs.Inproc.Defs.{
  Entry, Entries, Queue, new, find, update, remove_first, count_at, release_group, with_id,
  enqueue_at, entry_of,
}
use maniflex.Jobs.Inproc.Counts.{
  runs_under, one_if, running_under, with_id_count, running_under-append, with_id_count-append,
}
use maniflex.Jobs.Inproc.Finds.{
  Below, Below-append, find-append, find-next, find-update_same, find-update_other, find-remove,
}
use maniflex.Jobs.Inproc.Claims.{count_at-release}

-- What an id maps to is an entry of that id.
abbrev pub Indexed : Map ℕ → Entries → Type 0
Indexed ids es =
    (id : String) (h : ℕ)
    → lookup id ids ≡ some h
    → (e : Entry) × (find h es ≡ some e) × (e.job.id ≡ id)

abbrev pub Unique : Entries → Type 0
Unique es = (id : String) → with_id_count id es ≤ 1

-- runningKeys counts the running entries of each group key, and there is at most one.
abbrev pub Counted : Map ℕ → Entries → Type 0
Counted keys es =
    (k : String) → k ≢ "" → (running_under k es ≡ count_at k keys) × (count_at k keys ≤ 1)

pub record IsWellFormed (q : Queue) : Type 0 where
  pub below : Below q.next_handle q.entries
  pub indexed : Indexed q.by_id q.entries
  pub unique : Unique q.entries
  pub counted : Counted q.running_keys q.entries

pub new-IsWellFormed : IsWellFormed new
unfolding lookup count_at find
new-IsWellFormed = record {
  below = tt;
  indexed = λ id h p. cc;
  unique = λ id. omega arith;
  counted = λ k ne. (refl, omega arith);
}

pub Indexed-enqueue :
    (n : ℕ) (ids : Map ℕ) (es : Entries) (e : Entry)
    → Below n es
    → Indexed ids es
    → Indexed (insert e.job.id n ids) (es ++ (n, e) ∷ [])
Indexed-enqueue n ids es e b x id h p = elim (Bool-cases (str_eq e.job.id id)) [
  | inl hit ↦
      let is : n ≡ h = ground (arith, p, lookup-insert e.job.id id n ids) in
      (e, rw (sym is) (find-next n es e b), (eq_iff e.job.id id).0 hit)
  | inr miss ↦
      let (f, found, same) = x id h (ground (arith, p, lookup-insert e.job.id id n ids)) in
      (f, find-append h es ((n, e) ∷ []) f found, same)
]

pub Indexed-remove :
    (id : String) (ids : Map ℕ) (es : Entries)
    → Indexed ids es
    → Indexed (delete id ids) (remove_first id es)
Indexed-remove id ids es x k h p = elim (Bool-cases (str_eq id k)) [
  | inl hit ↦ ground (arith, lookup-delete id k ids)
  | inr miss ↦
      let (f, found, same) = x k h (ground (arith, lookup-delete id k ids)) in
      (f, find-remove id h es f found (λ is. ground (arith, eq_iff id k)), same)
]

pub Indexed-update :
    (ids : Map ℕ) (h : ℕ) (f : Entry → Entry) (es : Entries) (e : Entry)
    → find h es ≡ some e
    → (f e).job.id ≡ e.job.id
    → Indexed ids es
    → Indexed ids (update h f es)
Indexed-update ids h f es e p keeps x id g q =
    let (y, found, same) = x id g q in
    elim (Bool-cases (h == g)) [
      | inl hit ↦
          let is : h ≡ g = ground arith in
          let again : e ≡ y = cc in
          (f e, rw (sym is) (find-update_same h f es e p), keeps ∙ ap (λ z. z.job.id) again ∙ same)
      | inr miss ↦ (y, find-update_other h g f es (ground arith) ∙ found, same)
    ]

-- The entry of a claimed job leaves its group when it stops running.
pub Counted-release :
    (keys : Map ℕ) (es es' : Entries) (e : Entry)
    → ((k : String) → running_under k es' + one_if (runs_under k e) ≡ running_under k es)
    → is_running e.status ≡ true
    → Counted keys es
    → Counted (release_group e.job.group_key keys) es'
Counted-release keys es es' e moved runs c k ne =
    let holds : one_if (runs_under k e) ≡ one_if (str_eq e.job.group_key k) =
      ap (λ b. one_if (b && str_eq e.job.group_key k)) runs in
    (
      omega (arith, moved k, holds, (c k ne).0, count_at-release k e.job.group_key keys ne),
      omega (arith, (c k ne).1, count_at-release k e.job.group_key keys ne),
    )

pub entry_of-found :
    (id : String) (q : Queue) (h : ℕ) (e : Entry)
    → entry_of id q ≡ some (h, e)
    → (lookup id q.by_id ≡ some h) × (find h q.entries ≡ some e)
unfolding entry_of
entry_of-found id q h e p = (ground arith, ground arith)

pub Unique-enqueue :
    (n : ℕ) (es : Entries) (e : Entry)
    → with_id_count e.job.id es ≡ 0
    → Unique es
    → Unique (es ++ (n, e) ∷ [])
Unique-enqueue n es e unused u id =
    let counts = with_id_count-append id es ((n, e) ∷ []) in
    elim (Bool-cases (str_eq e.job.id id)) [
      | inl hit ↦
          let none_yet : with_id_count id es ≡ 0 =
            ap (λ t. with_id_count t es) (sym ((eq_iff e.job.id id).0 hit)) ∙ unused in
          omega (arith, rw hit at counts, none_yet)
      | inr miss ↦ omega (arith, rw miss at counts, u id)
    ]

-- Enqueue of an id that no live entry has.
pub enqueue_at-IsWellFormed :
    (fresh : String) (j : Job) (at : ℕ) (q : Queue)
    → with_id_count (with_id fresh j).id q.entries ≡ 0
    → IsWellFormed q
    → IsWellFormed (enqueue_at fresh j at q).1
unfolding enqueue_at
enqueue_at-IsWellFormed fresh j at q unused w = elim (Bool-cases q.closed) [
  | inl shut ↦ simp (shut) w
  | inr ready ↦
      let e : Entry = record {
        job = with_id fresh j;
        status = enqueued;
        attempts = 0;
        not_before = at;
      } in
      simp (ready) (record {
        below = Below-append q.next_handle q.entries e w.below;
        indexed = Indexed-enqueue q.next_handle q.by_id q.entries e w.below w.indexed;
        unique = Unique-enqueue q.next_handle q.entries e unused w.unique;
        counted = λ k ne. (
          running_under-append k q.entries ((q.next_handle, e) ∷ [])
              ∙ omega arith
              ∙ (w.counted k ne).0,
          (w.counted k ne).1,
        );
      })
]
