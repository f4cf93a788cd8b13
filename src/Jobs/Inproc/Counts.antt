-- ===== src/Jobs/Inproc/Counts.antt =====
-- How many entries run under a group key, and how the steps of the queue change that number.
use maniflex.Prelude.{
  ℕ, ◌+◌, ◌-◌, ◌≤◌, String, ◌≡◌, refl, ap, ◌∙◌, sym, inl, inr, Bool, true, false, ◌&&◌, some, [],
  ◌∷◌, ◌++◌, arith, ◌==◌, str_eq, eq_iff, if◌then◌else◌, Bool-cases,
}
use maniflex.Jobs.Job.{is_running}
use maniflex.Jobs.Inproc.Defs.{Entry, Entries, find, update, remove_first}

-- Whether an entry runs under a key.
abbrev pub runs_under : String → Entry → Bool
runs_under k e = is_running e.status && str_eq e.job.group_key k

abbrev pub one_if : Bool → ℕ
one_if b = if b then 1 else 0

abbrev pub running_under : String → Entries → ℕ
running_under k [] = 0
running_under k ((h, e) ∷ es) = one_if (runs_under k e) + running_under k es

abbrev pub with_id_count : String → Entries → ℕ
with_id_count id [] = 0
with_id_count id ((h, e) ∷ es) = one_if (str_eq e.job.id id) + with_id_count id es

pub running_under-append :
    (k : String) (es fs : Entries)
    → running_under k (es ++ fs) ≡ running_under k es + running_under k fs
running_under-append k [] fs = omega arith
running_under-append k ((h, e) ∷ es) fs = omega (arith, running_under-append k es fs)

pub with_id_count-append :
    (k : String) (es fs : Entries)
    → with_id_count k (es ++ fs) ≡ with_id_count k es + with_id_count k fs
with_id_count-append k [] fs = omega arith
with_id_count-append k ((h, e) ∷ es) fs = omega (arith, with_id_count-append k es fs)

-- What is found is the entry that stands at the handle, or is found behind it.
pub find-hit :
    (h g : ℕ) (x e : Entry) (es : Entries) → (g == h) ≡ true → find h ((g, x) ∷ es) ≡ some e → x ≡ e
unfolding find
find-hit h g x e es hit p = ground arith

pub find-miss :
    (h g : ℕ) (x e : Entry) (es : Entries)
    → (g == h) ≡ false
    → find h ((g, x) ∷ es) ≡ some e
    → find h es ≡ some e
unfolding find
find-miss h g x e es miss p = ground arith

-- A write to the entry of a handle moves the number by what the entry was and is.
pub running_under-update :
    (k : String) (h : ℕ) (f : Entry → Entry) (es : Entries) (e : Entry)
    → find h es ≡ some e
    → running_under k (update h f es) + one_if (runs_under k e)
      ≡ running_under k es + one_if (runs_under k (f e))
unfolding find update
running_under-update k h f [] e p = cc
running_under-update k h f ((g, x) ∷ es) e p = elim (Bool-cases (g == h)) [
  | inl hit ↦
      let same = find-hit h g x e es hit p in
      rw hit (
        omega (
          arith,
          ap (λ y. one_if (runs_under k y)) same,
          ap (λ y. one_if (runs_under k (f y))) same,
        ))
  | inr miss ↦
      rw miss (omega (arith, running_under-update k h f es e (find-miss h g x e es miss p)))
]

-- A write that keeps the id of the entry keeps how many entries have an id.
pub with_id_count-update :
    (id : String) (h : ℕ) (f : Entry → Entry) (es : Entries) (e : Entry)
    → find h es ≡ some e
    → (f e).job.id ≡ e.job.id
    → with_id_count id (update h f es) ≡ with_id_count id es
unfolding find update
with_id_count-update id h f [] e p same = refl
with_id_count-update id h f ((g, x) ∷ es) e p same = elim (Bool-cases (g == h)) [
  | inl hit ↦
      let is = find-hit h g x e es hit p in
      rw hit (
        ap (λ t. one_if (str_eq t id) + with_id_count id es)
          (ap (λ y. (f y).job.id) is ∙ same ∙ sym (ap (λ y. y.job.id) is)))
  | inr miss ↦
      rw miss (omega (arith, with_id_count-update id h f es e (find-miss h g x e es miss p) same))
]

pub has_id : (id : String) (x e : Entry) → x ≡ e → e.job.id ≡ id → str_eq x.job.id id ≡ true
has_id id x e same is = (eq_iff x.job.id id).1 (ap (λ y. y.job.id) same ∙ is)

-- An entry that is found with an id counts for the id.
pub found-counted :
    (id : String) (h : ℕ) (es : Entries) (e : Entry)
    → find h es ≡ some e
    → e.job.id ≡ id
    → 1 ≤ with_id_count id es
unfolding find
found-counted id h [] e p same = cc
found-counted id h ((g, x) ∷ es) e p same = elim (Bool-cases (g == h)) [
  | inl hit ↦ rw (has_id id x e (find-hit h g x e es hit p) same) (omega arith)
  | inr miss ↦ omega (arith, found-counted id h es e (find-miss h g x e es miss p) same)
]

-- Without a second entry of its id, the entry that is found is the one that is removed.
pub running_under-remove :
    (k id : String) (h : ℕ) (es : Entries) (e : Entry)
    → find h es ≡ some e
    → e.job.id ≡ id
    → with_id_count id es ≤ 1
    → running_under k (remove_first id es) + one_if (runs_under k e) ≡ running_under k es
unfolding find remove_first
running_under-remove k id h [] e p same once = cc
running_under-remove k id h ((g, x) ∷ es) e p same once = elim (Bool-cases (g == h)) [
  | inl hit ↦
      let same_entry = find-hit h g x e es hit p in
      rw (has_id id x e same_entry same)
        (omega (arith, ap (λ y. one_if (runs_under k y)) same_entry))
  | inr miss ↦
      let found = find-miss h g x e es miss p in
      elim (Bool-cases (str_eq x.job.id id)) [
        | inl twice ↦ omega (arith, found-counted id h es e found same, rw twice at once)
        | inr other ↦ rw other (
            omega (
              arith,
              running_under-remove k id h es e found same (omega (arith, rw other at once)),
            ))
      ]
]

-- A removal takes one entry of the id, if there is one, and no other.
pub with_id_count-remove :
    (k id : String) (es : Entries) → with_id_count k (remove_first id es) ≤ with_id_count k es
unfolding remove_first
with_id_count-remove k id [] = omega arith
with_id_count-remove k id ((g, x) ∷ es) = elim (Bool-cases (str_eq x.job.id id)) [
  | inl hit ↦ rw hit (omega arith)
  | inr miss ↦ rw miss (omega (arith, with_id_count-remove k id es))
]

pub with_id_count-remove_same :
    (id : String) (es : Entries) → with_id_count id (remove_first id es) ≡ with_id_count id es - 1
unfolding remove_first
with_id_count-remove_same id [] = omega arith
with_id_count-remove_same id ((g, x) ∷ es) = elim (Bool-cases (str_eq x.job.id id)) [
  | inl hit ↦ rw hit (omega arith)
  | inr miss ↦ rw (miss, miss) (omega (arith, with_id_count-remove_same id es))
]
