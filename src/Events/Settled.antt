-- ===== src/Events/Settled.antt =====
-- events/events.go, DeliverWithRetry: how often the handler runs, and how a settled event ended.
use maniflex.Prelude.{
  ℕ, zero, suc, ◌+◌, ◌-◌, ◌≤◌, String, ◌≡◌, refl, sym, ◌≢◌, ap, ◌∙◌, ◌⊎◌, inl, inr, Bool, true,
  false, not, ◌&&◌, Option, none, some, arith, ltb, str_eq, eq_iff, if◌then◌else◌, Bool-cases,
}
use maniflex.Prelude.Int.{pos}
use maniflex.Request.Context.Map.{insert}
use maniflex.Events.Delivery.{
  Event, Failure, Subscription, Ending, succeeded, abandoned, exhausted, turns, on_attempt,
  published, deliver_once, attempts, dead_letter, settle, deliver_with_retry,
}

pub on_attempt-succeeded :
    {W : Type 0} (r rest : W × Ending) (o : Option Failure) (w : W) (stop : Bool)
    → r ≡ on_attempt (w, o) stop rest
    → r.1 ≡ succeeded
    → ((o ≡ none) × (r.0 ≡ w)) ⊎ (r ≡ rest)
on_attempt-succeeded r rest none w stop is h = inl (refl, ap (λ x. x.0) is)
on_attempt-succeeded r rest (some f) w false is h = inr is
on_attempt-succeeded r rest (some f) w true is h = cc

pub published-ok :
    {W : Type 0} (r : W × Option String) → (published r).1 ≡ true → r ≡ ((published r).0, none)
published-ok (w, none) h = refl
published-ok (w, some e) h = cc

module _ {R W : Type 0} where
  -- A number of attempts that all fail, from a state to another.
  pub data Fails (sub : Subscription R W) (e : Event R) : ℕ → W → W → Type 0 where
    none_yet : {w : W} → Fails sub e 0 w w
    fails :
        {n : ℕ} {f : Failure} {v w x : W}
        → deliver_once sub e v ≡ (w, some f)
        → Fails sub e n w x
        → Fails sub e (suc n) v x

  -- Failed attempts use up turns, as long as the context lives.
  pub attempts-Fails :
      (sub : Subscription R W) (e : Event R) (gone : ℕ → Bool) (n m t attempt k : ℕ) (v w : W)
      → t ≡ n + m
      → k ≡ attempt + n
      → ((a : ℕ) → gone a ≡ false)
      → Fails sub e n v w
      → attempts sub e gone t attempt v ≡ attempts sub e gone m k w
  unfolding attempts
  attempts-Fails sub e gone _ m t attempt k v _ p q live none_yet =
      let start : attempt ≡ k = omega (arith, q) in
      let left : t ≡ m = omega (arith, p) in
      ap (λ x. attempts sub e gone x attempt v) left ∙ ap (λ x. attempts sub e gone m x v) start
  attempts-Fails sub e gone _ m zero attempt k v w p q live (fails {n = n} ran more) = ground arith
  attempts-Fails sub e gone _ m (suc t) attempt k v w p q live (fails {n = n} {w = x} ran more) =
      let stays : (ltb 0 t && (sub.has_backoff && gone attempt)) ≡ false =
        ground (arith, live attempt) in
      simp (ran, stays)
        (attempts-Fails sub e gone n m t (suc attempt) k x w (omega (arith, p)) (omega (arith, q))
          live more)

  -- With a context that lives on, a handler that fails at most MaxRetry times and then succeeds is not
  -- called again, nothing is published, and the event is settled.
  pub deliver_recovers :
      (publish : Event R → W → W × Option String) (fresh : String) (gone : ℕ → Bool)
      (sub : Subscription R W) (e : Event R) (max_retry n : ℕ) (v w x : W)
      → sub.max_retry ≡ pos max_retry
      → ((a : ℕ) → gone a ≡ false)
      → n ≤ max_retry
      → Fails sub e n v w
      → deliver_once sub e w ≡ (x, none)
      → deliver_with_retry publish fresh gone sub e v ≡ (x, true)
  unfolding deliver_with_retry attempts
  deliver_recovers publish fresh gone sub e max_retry n v w x is live few failed ran =
      let last : attempts sub e gone (suc (max_retry - n)) n w ≡ (x, succeeded) = simp (ran) refl in
      ap (settle publish fresh sub e) (
        attempts-Fails sub e gone n (suc (max_retry - n)) (turns sub.max_retry) 0 n v w
          (ap turns is ∙ omega arith) (omega arith) live failed
        ∙ last)

  -- With a context that lives on, a handler that fails all of its MaxRetry + 1 attempts is called no
  -- more. With no dead-letter type the event is dropped and settled; with one it is published under
  -- that type and a fresh id, with its own type and id added to its headers and all else as it was,
  -- and settled if and only if that succeeds.
  pub deliver_exhausts :
      (publish : Event R → W → W × Option String) (fresh : String) (gone : ℕ → Bool)
      (sub : Subscription R W) (e : Event R) (v w : W)
      → ((a : ℕ) → gone a ≡ false)
      → Fails sub e (turns sub.max_retry) v w
      → deliver_with_retry publish fresh gone sub e v ≡ (
          if str_eq sub.dlq ""
          then (w, true)
          else published (
              publish
                (record e {
                  id = fresh;
                  type_of = sub.dlq;
                  headers = insert "original_id" e.id (insert "original_type" e.type_of e.headers);
                })
                w))
  unfolding deliver_with_retry attempts
  deliver_exhausts publish fresh gone sub e v w live failed =
      let t = turns sub.max_retry in
      ap (settle publish fresh sub e)
        (attempts-Fails sub e gone t 0 t 0 t v w (omega arith) (omega arith) live failed)
      ∙ no_dlq
    where
      no_dlq :
          (if not (str_eq sub.dlq "")
            then published (publish (dead_letter fresh sub e) w)
            else (w, true))
          ≡ (if str_eq sub.dlq ""
              then (w, true)
              else published (publish (dead_letter fresh sub e) w))
      no_dlq = elim (Bool-cases (str_eq sub.dlq "")) [ inl b ↦ rw (b) refl | inr b ↦ rw (b) refl ]

  -- How an event ends that is settled: the handler succeeded last, or the dead letter was published
  -- last.
  abbrev pub IsDisposed :
      (Event R → W → W × Option String) → String → Subscription R W → Event R → W → Type 0
  IsDisposed publish fresh sub e end =
      (w : W) × ((deliver_once sub e w ≡ (end, none))
        ⊎ (publish (dead_letter fresh sub e) w ≡ (end, none)))

  pub attempts-succeeded :
      (sub : Subscription R W) (e : Event R) (gone : ℕ → Bool) (n attempt : ℕ) (v : W)
      → (attempts sub e gone n attempt v).1 ≡ succeeded
      → (w : W) × (deliver_once sub e w ≡ ((attempts sub e gone n attempt v).0, none))
  unfolding attempts
  attempts-succeeded sub e gone zero attempt v h = cc
  attempts-succeeded sub e gone (suc n) attempt v h =
      let r = deliver_once sub e v in
      let rest = attempts sub e gone n (suc attempt) r.0 in
      let stop = ltb 0 n && (sub.has_backoff && gone attempt) in
      elim (on_attempt-succeeded (on_attempt r stop rest) rest r.1 r.0 stop refl h) [
        | inl (ok, same) ↦ (v, λ i. (sym same i, ok i))
        | inr further ↦
            rw further (attempts-succeeded sub e gone n (suc attempt) r.0 (rw further at h))
      ]

  pub settle-IsDisposed :
      (publish : Event R → W → W × Option String) (fresh : String) (sub : Subscription R W)
      (e : Event R) (end : W) (how : Ending)
      → (how ≡ succeeded → (w : W) × (deliver_once sub e w ≡ (end, none)))
      → sub.dlq ≢ ""
      → (settle publish fresh sub e (end, how)).1 ≡ true
      → IsDisposed publish fresh sub e (settle publish fresh sub e (end, how)).0
  settle-IsDisposed publish fresh sub e end succeeded ran has_dlq h =
      let (w, ok) = ran refl in (w, inl ok)
  settle-IsDisposed publish fresh sub e end abandoned ran has_dlq h = cc
  settle-IsDisposed publish fresh sub e end exhausted ran has_dlq h =
      let miss : str_eq sub.dlq "" ≡ false = ground (arith, eq_iff sub.dlq "") in
      simp (miss)
        (end, inr (published-ok (publish (dead_letter fresh sub e) end) (simp (miss) at h)))

  -- No event that is settled is lost: with a dead-letter type set, whatever the handler does and
  -- whenever the context ends, a settled event was handled by the last attempt, or its dead letter was
  -- published, and nothing was done after that.
  pub settled-IsDisposed :
      (publish : Event R → W → W × Option String) (fresh : String) (gone : ℕ → Bool)
      (sub : Subscription R W) (e : Event R) (v : W)
      → sub.dlq ≢ ""
      → (deliver_with_retry publish fresh gone sub e v).1 ≡ true
      → IsDisposed publish fresh sub e (deliver_with_retry publish fresh gone sub e v).0
  unfolding deliver_with_retry
  settled-IsDisposed publish fresh gone sub e v has_dlq h =
      let r = attempts sub e gone (turns sub.max_retry) 0 v in
      settle-IsDisposed publish fresh sub e r.0 r.1
        (attempts-succeeded sub e gone (turns sub.max_retry) 0 v) has_dlq h
