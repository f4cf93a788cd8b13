-- ===== src/Events/Bus/Drain.antt =====
-- events/inproc/inproc.go: what is left of events when Close returns, and when a subscription is cancelled.
use maniflex.Prelude.{
  ℕ, zero, suc, ◌<◌, ◌≡◌, refl, inl, inr, Bool, true, false, none, some, List, [], ◌∷◌, ◌++◌, ltb,
  ◌==◌, length, All, Bool-cases, arith,
}
use maniflex.Events.Delivery.{Event}
use maniflex.Events.Bus.Defs.{
  BusSubscription, Bus, take_event, release_event, finish_event, remove_at, Move, takes, finishes,
  releases, new, close_returns, move,
}
use maniflex.Events.Bus.Manned.{loads, workers, IsManned, IsSound}
use maniflex.Events.Bus.Offered.{All-middle}
use maniflex.Events.Bus.Reachable.{Reaches, Reaches-IsSound}

no_length : {A : Type 0} (xs : List A) → length xs ≡ 0 → xs ≡ []
no_length [] h = refl
no_length (x ∷ xs) h = let no : 0 < 0 = omega (arith, h) in elim no [ ]

module _ {R : Type 0} where
  -- Nothing is queued and nothing is being delivered.
  abbrev pub IsIdle : BusSubscription R → Type 0
  IsIdle s = (s.queue ≡ []) × (s.running ≡ [])

  loads-IsIdle : (ss : List (BusSubscription R)) → loads ss ≡ 0 → All IsIdle ss
  loads-IsIdle [] h = tt
  loads-IsIdle (s ∷ ss) h = (
    (no_length s.queue (omega (arith, h)), no_length s.running (omega (arith, h))),
    loads-IsIdle ss (omega (arith, h)),
  )

  take_event-moves :
      (s : BusSubscription R) (n : ℕ) (q : List (Event R))
      → 0 < n
      → 0 < length q
      → (r : BusSubscription R × ℕ) × (take_event s n q ≡ some r)
  take_event-moves s (suc n) (e ∷ q) h k = (_, refl)
  take_event-moves s zero q h k = elim h [ ]
  take_event-moves s (suc n) [] h k = elim k [ ]

  release_event-moves :
      (s : BusSubscription R) (n : ℕ) (q : List (Event R))
      → 0 < n
      → 0 < length q
      → (r : BusSubscription R × ℕ) × (release_event s n q ≡ some r)
  release_event-moves s (suc n) (e ∷ q) h k = (_, refl)
  release_event-moves s zero q h k = elim h [ ]
  release_event-moves s (suc n) [] h k = elim k [ ]

  finish_event-moves :
      (s : BusSubscription R) (es : List (Event R))
      → 0 < length es
      → (r : BusSubscription R × ℕ) × (finish_event s (remove_at 0 es) ≡ some r)
  finish_event-moves s (e ∷ es) h = (_, refl)
  finish_event-moves s [] h = elim h [ ]

  -- Some worker of the subscription can go on.
  pub GoesOn : Bool → BusSubscription R → Type 0
  GoesOn cancelled s = (m : Move) × ((r : BusSubscription R × ℕ) × (move m cancelled s ≡ some r))

  goes_on : (c : Bool) (s : BusSubscription R) → 0 < workers s → 0 < length s.queue → GoesOn c s
  unfolding move GoesOn
  goes_on c s h k = elim (Bool-cases (ltb 0 s.idle)) [
    | inl some_idle ↦ (takes, take_event-moves s s.idle s.queue (ground arith) k)
    | inr none_idle ↦ elim (Bool-cases (ltb 0 s.releasing)) [
      | inl some_releasing ↦ (releases, release_event-moves s s.releasing s.queue (ground arith) k)
      | inr none_releasing ↦ (finishes 0, finish_event-moves s s.running (ground arith))
    ]
  ]

-- When the Close that closed the bus returns without an error, nothing is left behind: no event is queued
-- or being delivered for any subscription, those that were cancelled before included.
pub close_clean :
    {R : Type 0} (size : ℕ) (b c : Bus R) (timed_out : Bool)
    → Reaches (new size) b
    → close_returns timed_out b ≡ some (c, none)
    → All IsIdle b.subs
unfolding close_returns
close_clean size b c true r h = cc
close_clean size b c false r h = elim (Bool-cases (b.inflight == 0)) [
  | inl drained ↦ loads-IsIdle b.subs (ground (arith, (Reaches-IsSound size b r).counted))
  | inr left ↦ let no : none ≡ some (c, none) = simp (left) at h in cc
]

-- No event is orphaned: as long as a subscription has events queued, cancelled or not, one of its
-- workers can take, release or finish one, in every state that the bus reaches.
pub never_orphaned :
    {R : Type 0} (size : ℕ) (b : Bus R) (before behind : List (BusSubscription R))
    (s : BusSubscription R)
    → Reaches (new size) b
    → b.subs ≡ before ++ (s ∷ behind)
    → 0 < length s.queue
    → GoesOn b.cancelled s
never_orphaned size b before behind s r at queued =
    let sound : IsSound b = Reaches-IsSound size b r in
    let kept : IsManned b.queue_size b.cancelled s =
      (All-middle (IsManned b.queue_size b.cancelled) before s behind (rw at at sound.each)).1 in
    elim kept.served [
      | inl nothing ↦ let no : 0 < 0 = omega (arith, nothing, queued) in elim no [ ]
      | inr some_worker ↦ goes_on b.cancelled s some_worker queued
    ]
