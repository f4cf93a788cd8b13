-- ===== src/Events/Bus/Manned.antt =====
-- events/inproc/inproc.go: what a subscription keeps, and that each step of its workers keeps it.
use maniflex.Prelude.{
  ℕ, zero, suc, ◌+◌, ◌≤◌, ◌<◌, ◌≡◌, refl, ap, ◌∙◌, ◌⊎◌, inl, inr, Bool, true, false, not, ◌&&◌,
  ◌||◌, Option, none, some, List, [], ◌∷◌, length, All, Option-cases, arith,
}
use maniflex.Events.Delivery.{Event}
use maniflex.Events.Bus.Defs.{
  BusSubscription, Bus, Move, takes, finishes, retires, releases, exits, new, move, take_event,
  finish_event, retire, release_event, exit, remove_at,
}

-- The workers of a subscription that is not retired are as many as before.
still_manned :
    (gone : Bool) (idle idle' concurrency running running' : ℕ)
    → (gone ≡ true) ⊎ ((idle + running ≡ concurrency) × (0 < concurrency))
    → idle' + running' ≡ idle + running
    → (gone ≡ true) ⊎ ((idle' + running' ≡ concurrency) × (0 < concurrency))
still_manned gone idle idle' concurrency running running' (inl retired) same = inl retired
still_manned gone idle idle' concurrency running running' (inr (all, some_there)) same =
    inr (same ∙ all, some_there)

pub both_true : (a b : Bool) → a && b ≡ true → (a ≡ true) × (b ≡ true)
both_true true b h = (refl, h)
both_true false b h = cc

pub is_off : (a : Bool) → not a ≡ true → a ≡ false
is_off false h = refl
is_off true h = cc

pub or_true : (a : Bool) → a || true ≡ true
or_true true = refl
or_true false = refl

pub works :
    (stopped registered : Bool) (busy concurrency releasing : ℕ)
    → (stopped || false ≡ true) ⊎ ((busy ≡ concurrency) × (0 < concurrency))
    → (registered ≡ false) ⊎ (stopped ≡ false)
    → registered ≡ true
    → 0 < busy + releasing
works stopped registered busy concurrency releasing (inr (all, some_there)) k r =
    omega (arith, all, some_there)
works stopped registered busy concurrency releasing (inl gone) (inl out) r = cc
works true registered busy concurrency releasing (inl gone) (inr on) r = cc
works false registered busy concurrency releasing (inl gone) (inr on) r = cc

module _ {R : Type 0} where
  -- The events that a subscription still answers for, and all subscriptions.
  abbrev pub load : BusSubscription R → ℕ
  load s = length s.queue + length s.running

  abbrev pub loads : List (BusSubscription R) → ℕ
  loads [] = 0
  loads (s ∷ ss) = load s + loads ss

  abbrev pub workers : BusSubscription R → ℕ
  workers s = s.idle + length s.running + s.releasing

  -- A subscription of a bus whose context is cancelled, or not: its queue keeps its bound, no more
  -- workers are there than it asked for, a queue with events has a worker, and until it is retired it
  -- has all its workers and may be in b.subs.
  pub record IsManned (size : ℕ) (cancelled : Bool) (s : BusSubscription R) : Type 0 where
    pub fits : length s.queue ≤ size
    pub pooled : workers s ≤ s.concurrency
    pub served : (length s.queue ≡ 0) ⊎ (0 < workers s)
    pub manned :
        (s.stopped || cancelled ≡ true)
        ⊎ ((s.idle + length s.running ≡ s.concurrency) × (0 < s.concurrency))
    pub kept : (s.registered ≡ false) ⊎ (s.stopped ≡ false)

  pub record IsSound (b : Bus R) : Type 0 where
    pub counted : b.inflight ≡ loads b.subs
    pub each : All (IsManned b.queue_size b.cancelled) b.subs
    pub quiet : (b.cancelled ≡ false) ⊎ (b.closed ≡ true)

  pub new-IsSound : (size : ℕ) → IsSound (new size)
  unfolding new
  new-IsSound size = record { counted = refl; each = tt; quiet = inl refl }

  -- One step of a worker keeps its subscription in order, and discounts what it no longer answers for.
  abbrev pub Moved : ℕ → Bool → ℕ → Option (BusSubscription R × ℕ) → Type 0
  Moved size cancelled before none = Unit
  Moved size cancelled before (some (s, n)) = IsManned size cancelled s × (before ≡ load s + n)

  take_event-Moved :
      (size : ℕ) (c : Bool) (s : BusSubscription R) (n : ℕ) (q : List (Event R))
      → IsManned size c s
      → s.idle ≡ n
      → s.queue ≡ q
      → Moved size c (load s) (take_event s n q)
  take_event-Moved size c s zero q h i j = tt
  take_event-Moved size c s (suc n) [] h i j = tt
  take_event-Moved size c s (suc n) (e ∷ q) h i j = (
    record {
      fits = omega (arith, h.fits, ap length j);
      pooled = omega (arith, h.pooled, i);
      served = inr (omega arith);
      manned = still_manned _ _ _ _ _ _ h.manned (omega (arith, i));
      kept = h.kept;
    },
    omega (arith, ap length j),
  )

  length-remove_at :
      (i : ℕ) (es rest : List (Event R))
      → remove_at i es ≡ some rest
      → length es ≡ suc (length rest)
  length-remove_at i [] rest h = cc
  length-remove_at zero (e ∷ es) rest h = let same : es ≡ rest = cc in ap (λ l. suc (length l)) same
  length-remove_at (suc i) (e ∷ es) rest h = elim (Option-cases (remove_at i es)) [
    | inl missing ↦ let no : none ≡ some rest = rw missing at h in cc
    | inr (others, found) ↦
        let same : some (e ∷ others) ≡ some rest = rw found at h in
        let longer : e ∷ others ≡ rest = cc in
        ap suc (length-remove_at i es others found ∙ ap length longer)
  ]

  finish_event-Moved :
      (size : ℕ) (c : Bool) (s : BusSubscription R) (left : Option (List (Event R)))
      → IsManned size c s
      → ((rest : List (Event R)) → left ≡ some rest → length s.running ≡ suc (length rest))
      → Moved size c (load s) (finish_event s left)
  finish_event-Moved size c s none h i = tt
  finish_event-Moved size c s (some rest) h i = (
    record {
      fits = h.fits;
      pooled = omega (arith, h.pooled, i rest refl);
      served = inr (omega arith);
      manned = still_manned _ _ _ _ _ _ h.manned (omega (arith, i rest refl));
      kept = h.kept;
    },
    omega (arith, i rest refl),
  )

  retire-Moved :
      (size : ℕ) (c gone : Bool) (s : BusSubscription R) (n : ℕ)
      → IsManned size c s
      → s.stopped || c ≡ gone
      → s.idle ≡ n
      → Moved size c (load s) (retire s gone n)
  retire-Moved size c false s n h g i = tt
  retire-Moved size c true s zero h g i = tt
  retire-Moved size c true s (suc n) h g i = (
    record {
      fits = h.fits;
      pooled = omega (arith, h.pooled, i);
      served = inr (omega arith);
      manned = inl g;
      kept = h.kept;
    },
    omega arith,
  )

  release_event-Moved :
      (size : ℕ) (c : Bool) (s : BusSubscription R) (n : ℕ) (q : List (Event R))
      → IsManned size c s
      → s.releasing ≡ n
      → s.queue ≡ q
      → Moved size c (load s) (release_event s n q)
  release_event-Moved size c s zero q h i j = tt
  release_event-Moved size c s (suc n) [] h i j = tt
  release_event-Moved size c s (suc n) (e ∷ q) h i j = (
    record {
      fits = omega (arith, h.fits, ap length j);
      pooled = h.pooled;
      served = inr (omega (arith, i));
      manned = h.manned;
      kept = h.kept;
    },
    omega (arith, ap length j),
  )

  exit-Moved :
      (size : ℕ) (c : Bool) (s : BusSubscription R) (n : ℕ) (q : List (Event R))
      → IsManned size c s
      → s.releasing ≡ n
      → s.queue ≡ q
      → Moved size c (load s) (exit s n q)
  exit-Moved size c s zero q h i j = tt
  exit-Moved size c s (suc n) (e ∷ q) h i j = tt
  exit-Moved size c s (suc n) [] h i j = (
    record {
      fits = h.fits;
      pooled = omega (arith, h.pooled, i);
      served = inl (ap length j);
      manned = h.manned;
      kept = h.kept;
    },
    omega arith,
  )

  pub move-Moved :
      (m : Move) (size : ℕ) (c : Bool) (s : BusSubscription R)
      → IsManned size c s
      → Moved size c (load s) (move m c s)
  unfolding move
  move-Moved takes size c s h = take_event-Moved size c s s.idle s.queue h refl refl
  move-Moved (finishes i) size c s h =
      finish_event-Moved size c s (remove_at i s.running) h (length-remove_at i s.running)
  move-Moved retires size c s h = retire-Moved size c (s.stopped || c) s s.idle h refl refl
  move-Moved releases size c s h = release_event-Moved size c s s.releasing s.queue h refl refl
  move-Moved exits size c s h = exit-Moved size c s s.releasing s.queue h refl refl
