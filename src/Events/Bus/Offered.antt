-- ===== src/Events/Bus/Offered.antt =====
-- events/inproc/inproc.go: what callers of the bus do keeps its subscriptions in order.
use maniflex.Prelude.{
  ℕ, ◌+◌, ◌<◌, ◌≡◌, refl, inl, inr, Bool, true, false, not, ◌&&◌, List, [], ◌∷◌, ◌++◌, map, ◌==◌,
  length, length-append, All, Bool-cases, arith,
}
use maniflex.Events.Delivery.{Event}
use maniflex.Events.Bus.Defs.{
  BusSubscription, offer, accepted, walk, wants, has_room, enqueued, unregistered, told,
}
use maniflex.Events.Bus.Manned.{load, loads, workers, IsManned, both_true, is_off, or_true, works}

module _ {R : Type 0} where
  -- A subscription of b.subs, on a bus that runs, has a worker.
  at_work :
      (size : ℕ) (s : BusSubscription R)
      → IsManned size false s
      → s.registered ≡ true
      → 0 < workers s
  at_work size s h r =
      works s.stopped s.registered (s.idle + length s.running) s.concurrency s.releasing h.manned
        h.kept r

  enqueued-IsManned :
      (e : Event R) (size : ℕ) (s : BusSubscription R)
      → IsManned size false s
      → (wants e s ≡ true) × (has_room size s ≡ true)
      → IsManned size false (enqueued e s) × (load (enqueued e s) ≡ load s + 1)
  enqueued-IsManned e size s h taken = (
    record {
      fits = ground (arith, length-append s.queue (e ∷ []), taken.1);
      pooled = h.pooled;
      served = inr (at_work size s h (both_true s.registered _ taken.0).0);
      manned = h.manned;
      kept = h.kept;
    },
    omega (arith, length-append s.queue (e ∷ [])),
  )

  -- An event that is offered, to a bus that is not closed.
  offer-IsManned :
      (e : Event R) (size : ℕ) (s : BusSubscription R)
      → IsManned size false s
      → IsManned size false (offer e size s) × (load (offer e size s) ≡ load s + accepted e size s)
  offer-IsManned e size s h = elim (Bool-cases (wants e s && has_room size s)) [
    | inl yes_it_is ↦
        rw yes_it_is
          (enqueued-IsManned e size s h (both_true (wants e s) (has_room size s) yes_it_is))
    | inr no_it_is_not ↦ rw no_it_is_not (h, omega arith)
  ]

  pub walk-IsManned :
      (e : Event R) (size : ℕ) (ss : List (BusSubscription R))
      → All (IsManned size false) ss
      → All (IsManned size false) (walk e size ss).0
        × (loads (walk e size ss).0 ≡ loads ss + (walk e size ss).1)
  unfolding walk
  walk-IsManned e size [] h = (tt, refl)
  walk-IsManned e size (s ∷ ss) h =
      let here : IsManned size false (offer e size s)
          × (load (offer e size s) ≡ load s + accepted e size s) =
        offer-IsManned e size s h.0 in
      let there : All (IsManned size false) (walk e size ss).0
          × (loads (walk e size ss).0 ≡ loads ss + (walk e size ss).1) =
        walk-IsManned e size ss h.1 in
      ((here.0, there.0), omega (arith, here.1, there.1))

  -- All subscriptions, one changed.
  pub loads-append : (ss ts : List (BusSubscription R)) → loads (ss ++ ts) ≡ loads ss + loads ts
  loads-append [] ts = omega arith
  loads-append (s ∷ ss) ts = omega (arith, loads-append ss ts)

  pub All-middle :
      (P : BusSubscription R → Type 0) (before : List (BusSubscription R)) (s : BusSubscription R)
      (behind : List (BusSubscription R))
      → All P (before ++ (s ∷ behind))
      → All P before × P s × All P behind
  All-middle P [] s behind h = (tt, h.0, h.1)
  All-middle P (t ∷ before) s behind h =
      let (a, b, c) = All-middle P before s behind h.1 in ((h.0, a), b, c)

  -- What each of the callers does to one subscription, without changing its load.
  pub All-each :
      (size : ℕ) (c d : Bool) (f : BusSubscription R → BusSubscription R)
      (ss : List (BusSubscription R))
      → ((s : BusSubscription R)
          → IsManned size c s
          → IsManned size d (f s) × (load (f s) ≡ load s))
      → All (IsManned size c) ss
      → All (IsManned size d) (map f ss) × (loads (map f ss) ≡ loads ss)
  All-each size c d f [] k h = (tt, refl)
  All-each size c d f (s ∷ ss) k h =
      let here : IsManned size d (f s) × (load (f s) ≡ load s) = k s h.0 in
      let there : All (IsManned size d) (map f ss) × (loads (map f ss) ≡ loads ss) =
        All-each size c d f ss k h.1 in
      ((here.0, there.0), omega (arith, here.1, there.1))

  pub unregistered-IsManned :
      (size id : ℕ) (c : Bool) (s : BusSubscription R)
      → IsManned size c s
      → IsManned size c (unregistered id s) × (load (unregistered id s) ≡ load s)
  unregistered-IsManned size id c s h = elim (Bool-cases (s.id == id)) [
    | inl this ↦ rw this (
      record {
        fits = h.fits;
        pooled = h.pooled;
        served = h.served;
        manned = h.manned;
        kept = inl refl;
      },
      refl,
    )
    | inr other ↦ rw other (h, refl)
  ]

  pub told-IsManned :
      (size id : ℕ) (c : Bool) (s : BusSubscription R)
      → IsManned size c s
      → IsManned size c (told id s) × (load (told id s) ≡ load s)
  told-IsManned size id c s h = elim (Bool-cases (s.id == id && not s.registered)) [
    | inl this ↦ rw this (
      record {
        fits = h.fits;
        pooled = h.pooled;
        served = h.served;
        manned = inl refl;
        kept = inl (is_off s.registered (both_true (s.id == id) (not s.registered) this).1);
      },
      refl,
    )
    | inr other ↦ rw other (h, refl)
  ]

  pub cancelled-IsManned :
      (size : ℕ) (c : Bool) (s : BusSubscription R) → IsManned size c s → IsManned size true s
  cancelled-IsManned size c s h = record {
    fits = h.fits;
    pooled = h.pooled;
    served = h.served;
    manned = inl (or_true s.stopped);
    kept = h.kept;
  }
