-- ===== src/Jobs/Inproc/Listing.antt =====
-- jobs/inproc/queue.go, List: the paging of the entries that match a query.
use maniflex.Prelude.{
  ℕ, zero, suc, ◌-◌, ◌<◌, ◌≡◌, refl, sym, ap, ◌∙◌, inl, inr, List, [], ◌∷◌, map, arith, ltb, leb,
  ltb→lt, ◌==◌, if◌then◌else◌, Bool-cases, take, drop, filter,
}
use maniflex.Jobs.Job.{JobState, ListQuery}
use maniflex.Jobs.Inproc.Defs.{Entry, Entries, Queue}
use maniflex.Jobs.Inproc.Queries.{matches, state_of, list_loop, list_jobs}

-- The entries that a query matches, in the order of the queue.
abbrev pub matching : ListQuery → Entries → List Entry
matching qry es = filter (matches qry) (map (λ x. x.1) es)

-- A page: the matches from the offset on, as many as the limit.
abbrev pub page : ℕ → ℕ → List Entry → List JobState
page skip room es = map state_of (take room (drop skip es))

pub page-skips :
    (skip room : ℕ) (e : Entry) (es : List Entry)
    → 0 < skip
    → page skip room (e ∷ es) ≡ page (skip - 1) room es
page-skips zero room e es some_left = ground arith
page-skips (suc skip) room e es some_left = ap (λ n. page n room es) (omega arith)

pub page-takes :
    (room : ℕ) (e : Entry) (es : List Entry)
    → 0 < room
    → page 0 room (e ∷ es) ≡ state_of e ∷ page 0 (room - 1) es
page-takes zero e es some_room = ground arith
page-takes (suc room) e es some_room = ap (λ n. state_of e ∷ page 0 n es) (omega arith)

pub page-nil : (skip room : ℕ) → page skip room [] ≡ []
page-nil zero zero = refl
page-nil zero (suc room) = refl
page-nil (suc skip) zero = refl
page-nil (suc skip) (suc room) = refl

pub list_loop-page :
    (qry : ListQuery) (skip room : ℕ) (es : Entries)
    → 0 < room
    → list_loop qry skip room es ≡ page skip room (matching qry es)
unfolding list_loop
list_loop-page qry skip room [] some_room = sym (page-nil skip room)
list_loop-page qry skip room ((h, e) ∷ es) some_room = elim (Bool-cases (matches qry e)) [
  | inr other ↦ simp (other) (list_loop-page qry skip room es some_room)
  | inl hit ↦ elim (Bool-cases (ltb 0 skip)) [
    | inl skips ↦
        simp (hit, skips)
          (list_loop-page qry (skip - 1) room es some_room
            ∙ sym (page-skips skip room e (matching qry es) (ltb→lt 0 skip skips)))
    | inr takes ↦
        let start : skip ≡ 0 = ground arith in
        let rest = page-takes room e (matching qry es) some_room in
        let here = ap (λ s. page s room (e ∷ matching qry es)) start ∙ rest in
        elim (Bool-cases (leb room 1)) [
          | inl last ↦
              let full : room - 1 ≡ 0 = ground arith in
              simp (hit, takes, last)
                (sym (here ∙ ap (λ n. state_of e ∷ page 0 n (matching qry es)) full))
          | inr more ↦
              simp (hit, takes, more)
                (ap (λ js. state_of e ∷ js)
                    (list_loop-page qry skip (room - 1) es (ground arith)
                      ∙ ap (λ s. page s (room - 1) (matching qry es)) start)
                  ∙ sym here)
        ]
  ]
]

-- List returns a page of the entries that match the query, in the order of the queue: those from the
-- offset on, at most as many as the limit, which is 100 where none is given.
pub list_jobs-page :
    (qry : ListQuery) (q : Queue)
    → list_jobs qry q
      ≡ map state_of (
          take
            (if qry.limit == 0 then 100 else qry.limit)
            (drop qry.offset (filter (matches qry) (map (λ x. x.1) q.entries))))
unfolding list_jobs
list_jobs-page qry q =
    list_loop-page qry qry.offset (if qry.limit == 0 then 100 else qry.limit) q.entries
      (ground arith)
