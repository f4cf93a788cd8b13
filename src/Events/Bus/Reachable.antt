-- ===== src/Events/Bus/Reachable.antt =====
-- events/inproc/inproc.go: the bus in all interleavings of its callers and its workers.
--
-- A walk of Publish is one step, since walks of two callers meet only at the queues, where one comes
-- before the other. Close returns when the counter is at zero, or when its time is up, at any moment
-- after the bus was closed.
use maniflex.Prelude.{
  ℕ, ◌+◌, ◌-◌, ◌≡◌, refl, ap, ◌⊎◌, inl, inr, Bool, true, false, Option, none, some, List, ◌∷◌, ◌++◌,
  map, ◌==◌, All, All-append, All-map, Bool-cases, arith,
}
use mathlib.Core.Path.{subst}
use maniflex.Prelude.Bytes.{Bytes}
use maniflex.Events.Delivery.{Event}
use maniflex.Events.Bus.Defs.{
  BusSubscription, Bus, BusError, Move, new, walk, publish, subscribe, unregister, unregistered,
  told, stop_workers, close, close_returns, move,
}
use maniflex.Events.Bus.Manned.{load, loads, IsManned, IsSound, Moved, new-IsSound, move-Moved}
use maniflex.Events.Bus.Offered.{
  walk-IsManned, loads-append, All-middle, All-each, unregistered-IsManned, told-IsManned,
  cancelled-IsManned,
}

module _ {R : Type 0} where
  -- A call, or a step of a worker of the subscription s.
  pub data Step (b : Bus R) : Bus R → Type 0 where
    publishes : (e : Event R) → Step b (publish e b).0
    subscribes :
        (patterns : List Bytes) (concurrency : ℕ) → Step b (subscribe patterns concurrency b)
    unregisters : (id : ℕ) → Step b (unregister id b)
    stops : (id : ℕ) → Step b (stop_workers id b)
    closes : Step b (close b)
    returns :
        (timed_out : Bool) (c : Bus R) (err : Option BusError)
        → b.closed ≡ true
        → close_returns timed_out b ≡ some (c, err)
        → Step b c
    moves :
        (m : Move) (before behind : List (BusSubscription R)) (s t : BusSubscription R) (n : ℕ)
        → b.subs ≡ before ++ (s ∷ behind)
        → move m b.cancelled s ≡ some (t, n)
        → Step b (record b { subs = before ++ (t ∷ behind); inflight = b.inflight - n })

  pub data Reaches (b : Bus R) : Bus R → Type 0 where
    here : Reaches b b
    further : {c d : Bus R} → Reaches b c → Step c d → Reaches b d

  not_cancelled :
      (b : Bus R)
      → b.closed ≡ false
      → (b.cancelled ≡ false) ⊎ (b.closed ≡ true)
      → b.cancelled ≡ false
  not_cancelled b running (inl going) = going
  not_cancelled b running (inr closed) = cc

  publish-IsSound : (e : Event R) (b : Bus R) → IsSound b → IsSound (publish e b).0
  unfolding publish
  publish-IsSound e b w = elim (Bool-cases b.closed) [
    | inl closed ↦ simp (closed) w
    | inr running ↦
        let going : b.cancelled ≡ false = not_cancelled b running w.quiet in
        let walked : All (IsManned b.queue_size false) (walk e b.queue_size b.subs).0
            × (loads (walk e b.queue_size b.subs).0
                ≡ loads b.subs + (walk e b.queue_size b.subs).1) =
          walk-IsManned e b.queue_size b.subs (rw going at w.each) in
        rw running (record {
          counted = omega (arith, w.counted, walked.1);
          each = rw going walked.0;
          quiet = inl going;
        })
  ]

  subscribe-IsSound :
      (patterns : List Bytes) (n : ℕ) (b : Bus R) → IsSound b → IsSound (subscribe patterns n b)
  unfolding subscribe
  subscribe-IsSound patterns n b w = record {
    counted = omega (arith, w.counted, loads-append b.subs _);
    each = All-append (IsManned b.queue_size b.cancelled) b.subs _ w.each (
      record {
        fits = omega arith;
        pooled = omega arith;
        served = inl refl;
        manned = inr (omega arith, ground arith);
        kept = inr refl;
      },
      tt,
    );
    quiet = w.quiet;
  }

  moves-IsSound :
      (m : Move) (before behind : List (BusSubscription R)) (s t : BusSubscription R) (n : ℕ)
      (b : Bus R)
      → b.subs ≡ before ++ (s ∷ behind)
      → move m b.cancelled s ≡ some (t, n)
      → IsSound b
      → IsSound (record b { subs = before ++ (t ∷ behind); inflight = b.inflight - n })
  moves-IsSound m before behind s t n b at moved w =
      let parts : All (IsManned b.queue_size b.cancelled) before
          × IsManned b.queue_size b.cancelled s
          × All (IsManned b.queue_size b.cancelled) behind =
        All-middle (IsManned b.queue_size b.cancelled) before s behind (rw at at w.each) in
      let after : Moved b.queue_size b.cancelled (load s) (some (t, n)) =
        rw moved at (move-Moved m b.queue_size b.cancelled s parts.1) in
      record {
        counted = omega (
          arith,
          w.counted,
          ap loads at,
          after.1,
          loads-append before (s ∷ behind),
          loads-append before (t ∷ behind),
        );
        each =
            All-append (IsManned b.queue_size b.cancelled) before (t ∷ behind) parts.0
              (after.0, parts.2);
        quiet = w.quiet;
      }

  each-IsSound :
      (f : BusSubscription R → BusSubscription R) (b : Bus R)
      → ((s : BusSubscription R)
          → IsManned b.queue_size b.cancelled s
          → IsManned b.queue_size b.cancelled (f s) × (load (f s) ≡ load s))
      → IsSound b
      → IsSound (record b { subs = map f b.subs })
  each-IsSound f b k w =
      let all : All (IsManned b.queue_size b.cancelled) (map f b.subs)
          × (loads (map f b.subs) ≡ loads b.subs) =
        All-each b.queue_size b.cancelled b.cancelled f b.subs k w.each in
      record { counted = omega (arith, w.counted, all.1); each = all.0; quiet = w.quiet }

  returned :
      (timed_out : Bool) (b c : Bus R) (err : Option BusError)
      → close_returns timed_out b ≡ some (c, err)
      → (record b { cancelled = true }) ≡ c
  unfolding close_returns
  returned true b c err h = cc
  returned false b c err h = elim (Bool-cases (b.inflight == 0)) [
    | inl drained ↦
        let same : some (record b { cancelled = true }, none) ≡ some (c, err) =
          simp (drained) at h in
        cc
    | inr left ↦ let no : none ≡ some (c, err) = simp (left) at h in cc
  ]

  Step-IsSound : {b c : Bus R} → Step b c → IsSound b → IsSound c
  unfolding unregister stop_workers close
  Step-IsSound {b = b} (publishes e) w = publish-IsSound e b w
  Step-IsSound {b = b} (subscribes ps n) w = subscribe-IsSound ps n b w
  Step-IsSound {b = b} (unregisters id) w =
      each-IsSound (unregistered id) b (unregistered-IsManned b.queue_size id b.cancelled) w
  Step-IsSound {b = b} (stops id) w =
      each-IsSound (told id) b (told-IsManned b.queue_size id b.cancelled) w
  Step-IsSound closes w = record { counted = w.counted; each = w.each; quiet = inr refl }
  Step-IsSound {b = b} (returns timed_out c err closed ended) w =
      subst IsSound (returned timed_out b c err ended) (record {
        counted = w.counted;
        each = All-map (cancelled-IsManned b.queue_size b.cancelled) b.subs w.each;
        quiet = inr closed;
      })
  Step-IsSound {b = b} (moves m before behind s t n at moved) w =
      moves-IsSound m before behind s t n b at moved w

-- Whatever callers and workers do, in whatever order: the counter that Close waits on is the number of
-- events that are queued or being delivered, no queue is longer than its bound, and of no subscription
-- more deliveries run than its concurrency.
pub Reaches-IsSound : {R : Type 0} (size : ℕ) (b : Bus R) → Reaches (new size) b → IsSound b
Reaches-IsSound size _ here = new-IsSound size
Reaches-IsSound size _ (further r s) = Step-IsSound s (Reaches-IsSound size _ r)
