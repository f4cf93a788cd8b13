-- ===== src/Jobs/Inproc/Finds.antt =====
-- What is found at a handle after the entries were extended, written to or removed.
use maniflex.Prelude.{
  ℕ, ◌+◌, ◌<◌, String, ◌≡◌, refl, ◌≢◌, ap, ◌∙◌, sym, inl, inr, some, [], ◌∷◌, ◌++◌, arith, ◌==◌,
  str_eq, eq_iff, if◌then◌else◌, Bool-cases,
}
use maniflex.Jobs.Inproc.Defs.{Entry, Entries, find, update, remove_first}
use maniflex.Jobs.Inproc.Counts.{find-hit, find-miss}

-- Every handle is below the next one.
abbrev pub Below : ℕ → Entries → Type 0
Below n [] = Unit
Below n ((h, e) ∷ es) = (h < n) × Below n es

pub Below-append :
    (n : ℕ) (es : Entries) (e : Entry) → Below n es → Below (n + 1) (es ++ (n, e) ∷ [])
Below-append n [] e b = (omega arith, tt)
Below-append n ((h, x) ∷ es) e b = (omega (arith, b.0), Below-append n es e b.1)

pub Below-update :
    (n h : ℕ) (f : Entry → Entry) (es : Entries) → Below n es → Below n (update h f es)
unfolding update
Below-update n h f [] b = tt
Below-update n h f ((g, x) ∷ es) b = elim (Bool-cases (g == h)) [
  | inl hit ↦ rw hit b
  | inr miss ↦ rw miss (b.0, Below-update n h f es b.1)
]

pub Below-remove : (n : ℕ) (id : String) (es : Entries) → Below n es → Below n (remove_first id es)
unfolding remove_first
Below-remove n id [] b = tt
Below-remove n id ((g, x) ∷ es) b = elim (Bool-cases (str_eq x.job.id id)) [
  | inl hit ↦ rw hit b.1
  | inr miss ↦ rw miss (b.0, Below-remove n id es b.1)
]

pub find-append :
    (h : ℕ) (es fs : Entries) (e : Entry) → find h es ≡ some e → find h (es ++ fs) ≡ some e
unfolding find
find-append h [] fs e p = cc
find-append h ((g, x) ∷ es) fs e p = elim (Bool-cases (g == h)) [
  | inl hit ↦ rw hit (rw hit at p)
  | inr miss ↦ rw miss (find-append h es fs e (rw miss at p))
]

pub find-next :
    (n : ℕ) (es : Entries) (e : Entry) → Below n es → find n (es ++ (n, e) ∷ []) ≡ some e
unfolding find
find-next n [] e b = ground arith
find-next n ((h, x) ∷ es) e b = ground (arith, b.0, find-next n es e b.1)

pub find-update_same :
    (h : ℕ) (f : Entry → Entry) (es : Entries) (e : Entry)
    → find h es ≡ some e
    → find h (update h f es) ≡ some (f e)
unfolding find update
find-update_same h f [] e p = cc
find-update_same h f ((g, x) ∷ es) e p = elim (Bool-cases (g == h)) [
  | inl hit ↦ rw (hit, hit) (ap (λ y. some (f y)) (find-hit h g x e es hit p))
  | inr miss ↦ rw (miss, miss) (find-update_same h f es e (find-miss h g x e es miss p))
]

pub find-update_other :
    (h k : ℕ) (f : Entry → Entry) (es : Entries) → h ≢ k → find k (update h f es) ≡ find k es
unfolding find update
find-update_other h k f [] ne = refl
find-update_other h k f ((g, x) ∷ es) ne = elim (Bool-cases (g == h)) [
  | inl hit ↦ rw hit (ground arith)
  | inr miss ↦ rw miss (ap (λ r. if g == k then some x else r) (find-update_other h k f es ne))
]

pub find-remove :
    (id : String) (h : ℕ) (es : Entries) (e : Entry)
    → find h es ≡ some e
    → e.job.id ≢ id
    → find h (remove_first id es) ≡ some e
unfolding find remove_first
find-remove id h [] e p ne = cc
find-remove id h ((g, x) ∷ es) e p ne = elim (Bool-cases (g == h)) [
  | inl hit ↦ elim (Bool-cases (str_eq x.job.id id)) [
    | inl gone ↦
        elim (ne
          (sym (ap (λ y. y.job.id) (find-hit h g x e es hit p)) ∙ (eq_iff x.job.id id).0 gone)) [ ]
    | inr stays ↦ rw (stays, hit) (rw hit at p)
  ]
  | inr miss ↦
      let behind = find-miss h g x e es miss p in
      elim (Bool-cases (str_eq x.job.id id)) [
        | inl gone ↦ rw gone behind
        | inr stays ↦ rw (stays, miss) (find-remove id h es e behind ne)
      ]
]
