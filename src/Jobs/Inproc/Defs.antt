-- ===== src/Jobs/Inproc/Defs.antt =====
-- jobs/inproc/queue.go: the state and the operations of the queue.
use maniflex.Prelude.{
  ℕ, ◌+◌, ◌-◌, String, Bool, true, false, not, ◌&&◌, Option, none, some, List, [], ◌∷◌, ◌++◌, ltb,
  leb, ◌==◌, str_eq, map, if◌then◌else◌,
}
use maniflex.Request.Context.Map.{Map, lookup, insert, delete}
use maniflex.Jobs.Job.{
  Status, enqueued, running, succeeded, cancelled, is_running, is_pending, Job, max_retry_for,
}

pub record Entry : Type 0 where
  pub job : Job
  pub status : Status
  pub attempts : ℕ
  pub not_before : ℕ

abbrev pub Entries : Type 0
Entries = List (ℕ × Entry)

pub record Queue : Type 0 where
  pub entries : Entries
  pub by_id : Map ℕ
  pub running_keys : Map ℕ
  pub closed : Bool
  pub notified : Bool
  pub next_handle : ℕ

pub data Fault : Type 0 where
  queue_closed : Fault
  not_found already_running : String → Fault

pub data Result (A : Type 0) : Type 0 where
  ok : A → Result A
  err : Fault → Result A

abbrev pub new : Queue
new = record {
  entries = [];
  by_id = [];
  running_keys = [];
  closed = false;
  notified = false;
  next_handle = 0;
}

-- *e
unfoldable pub find : ℕ → Entries → Option Entry
find h [] = none
find h ((g, e) ∷ es) = if g == h then some e else find h es

-- *e = f(*e)
unfoldable pub update : ℕ → (Entry → Entry) → Entries → Entries
update h f [] = []
update h f ((g, e) ∷ es) = if g == h then (g, f e) ∷ es else (g, e) ∷ update h f es

-- The loop of removeEntry: the first entry with the id goes.
unfoldable pub remove_first : String → Entries → Entries
remove_first id [] = []
remove_first id ((g, e) ∷ es) = if str_eq e.job.id id then es else (g, e) ∷ remove_first id es

-- m[k] of a map of counts.
abbrev pub or_zero : Option ℕ → ℕ
or_zero none = 0
or_zero (some n) = n

unfoldable pub count_at : String → Map ℕ → ℕ
unfolding lookup
count_at k m = or_zero (lookup k m)

unfoldable pub release_group : String → Map ℕ → Map ℕ
unfolding count_at insert delete
release_group key m =
    if str_eq key ""
    then m
    else if ltb 1 (count_at key m)
    then insert key (count_at key m - 1) m
    else delete key m

unfoldable pub remove_entry : String → Queue → Queue
unfolding remove_first delete
remove_entry id q = record q { entries = remove_first id q.entries; by_id = delete id q.by_id }

abbrev pub pulse : Queue → Queue
pulse q = record q { notified = true }

abbrev pub with_id : String → Job → Job
with_id fresh j = if str_eq j.id "" then record j { id = fresh } else j

unfoldable pub enqueue_at : String → Job → ℕ → Queue → Result String × Queue
unfolding insert
enqueue_at fresh j at q =
    let job = with_id fresh j in
    let e : Entry = record { job = job; status = enqueued; attempts = 0; not_before = at } in
    if q.closed then (err queue_closed, q) else (
      ok job.id,
      pulse (record q {
        entries = q.entries ++ (q.next_handle, e) ∷ [];
        by_id = insert job.id q.next_handle q.by_id;
        next_handle = q.next_handle + 1;
      }),
    )

-- One round of EnqueueBatch: the rest of the batch is enqueued unless this job was refused. The ids
-- that were not assigned stay empty.
abbrev pub and_then :
    (Queue → List String × Option Fault × Queue)
    → List String
    → Result String × Queue
    → List String × Option Fault × Queue
and_then rest unassigned (err f, q) = ("" ∷ unassigned, some f, q)
and_then rest unassigned (ok id, q) = let (ids, fault, q') = rest q in (id ∷ ids, fault, q')

-- EnqueueBatch, with a fresh id and the time for each job.
unfoldable pub enqueue_batch : List (String × Job × ℕ) → Queue → List String × Option Fault × Queue
unfolding enqueue_at
enqueue_batch [] q = ([], none, q)
enqueue_batch ((fresh, j, now) ∷ js) q =
    and_then (enqueue_batch js) (map (λ _. "") js) (enqueue_at fresh j now q)

abbrev pub close : Queue → Queue
close q = record q { closed = true }

-- The claim of one entry, and the job that Dequeue returns for it.
abbrev pub claim : Entry → Entry
claim e = record e { status = running; attempts = e.attempts + 1 }

abbrev pub picked_job : Entry → Job
picked_job e = record e.job { attempts = e.attempts + 1 }

abbrev pub hold_group : String → Map ℕ → Map ℕ
hold_group key keys = if not (str_eq key "") then insert key (count_at key keys + 1) keys else keys

-- The guards of the loop of Dequeue, in its order.
unfoldable pub claimable : ℕ → Map ℕ → Entry → Bool
unfolding count_at
claimable now keys e =
    is_pending e.status
    && (leb e.not_before now
        && not (not (str_eq e.job.group_key "") && ltb 0 (count_at e.job.group_key keys)))

-- The loop of Dequeue, with how many may still be picked.
unfoldable pub dequeue_loop : ℕ → ℕ → Map ℕ → Entries → Entries × Map ℕ × List Job
unfolding claimable
dequeue_loop now n keys [] = ([], keys, [])
dequeue_loop now n keys ((h, e) ∷ es) =
    let c = claimable now keys e in
    let (es', keys', js) =
      dequeue_loop now (if c then n - 1 else n)
        (if c then hold_group e.job.group_key keys else keys) es in
    if n == 0
    then ((h, e) ∷ es, keys, [])
    else ((h, if c then claim e else e) ∷ es', keys', if c then picked_job e ∷ js else js)

unfoldable pub dequeue : ℕ → ℕ → Queue → Result (List Job) × Queue
unfolding dequeue_loop
dequeue now n q =
    let (es, keys, js) = dequeue_loop now n q.running_keys q.entries in
    if q.closed
    then (err queue_closed, q)
    else (ok js, record q { notified = false; entries = es; running_keys = keys })

-- e, ok := q.byID[id]
unfoldable pub entry_of : String → Queue → Option (ℕ × Entry)
unfolding lookup find
entry_of id q = elim (lookup id q.by_id) [
  | none ↦ none
  | some h ↦ elim (find h q.entries) [ none ↦ none | some e ↦ some (h, e) ]
]

-- What an operation does with the entry of an id, and with an id that has none.
abbrev pub on_entry {ℓ} : {B : Type ℓ} → Option (ℕ × Entry) → B → (ℕ → Entry → B) → B
on_entry none missing found = missing
on_entry (some (h, e)) missing found = found h e

-- e.status = status; q.releaseGroup(e.job.GroupKey)
unfoldable pub leave : Entry → Queue → Queue
unfolding release_group
leave e q = record q { running_keys = release_group e.job.group_key q.running_keys }

abbrev pub with_status : Status → Entry → Entry
with_status s e = record e { status = s }

unfoldable pub ack : String → Queue → Queue
unfolding entry_of leave remove_entry update
ack id q = on_entry (entry_of id q) q λ h e.
    pulse (
      remove_entry id (leave e (record q { entries = update h (with_status succeeded) q.entries })))

unfoldable pub nack : String → ℕ → ℕ → Queue → Queue
unfolding entry_of leave remove_entry update max_retry_for
nack id now delay q = on_entry (entry_of id q) q λ h e.
    let q' = leave e q in
    if leb (max_retry_for e.job) e.attempts
    then remove_entry id q'
    else pulse (record q' {
      entries = update h (λ x. record x { status = enqueued; not_before = now + delay }) q'.entries;
    })

-- The entry that Requeue leaves: the job as it is given, with its attempts.
abbrev pub requeued : Job → ℕ → Entry → Entry
requeued j due e = record { job = j; status = enqueued; attempts = j.attempts; not_before = due }

unfoldable pub requeue : Job → ℕ → ℕ → Queue → Queue
unfolding entry_of leave update
requeue j now delay q = on_entry (entry_of j.id q) q λ h e.
    let q' = leave e q in
    pulse (record q' { entries = update h (requeued j (now + delay)) q'.entries })

unfoldable pub dead_letter : String → Queue → Queue
unfolding entry_of leave remove_entry
dead_letter id q = on_entry (entry_of id q) q λ h e. pulse (remove_entry id (leave e q))

unfoldable pub cancel : String → Queue → Option Fault × Queue
unfolding entry_of remove_entry update
cancel id q =
    on_entry (entry_of id q) (some (not_found id), q)
      λ h e. if is_running e.status then (some (already_running id), q) else (
        none,
        remove_entry id (record q { entries = update h (with_status cancelled) q.entries }),
      )
