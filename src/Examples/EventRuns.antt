-- ===== src/Examples/EventRuns.antt =====
-- events on concrete deliveries: the state is how often the handler ran and what was published.
use maniflex.Prelude.{
  ℕ, suc, String, ◌≡◌, refl, ap, Bool, true, false, Option, none, some, List, [], ◌∷◌, ltb,
  if◌then◌else◌,
}
use maniflex.Request.Context.Map.{lookup, insert, delete}
use maniflex.Prelude.Int.{ℤ, pos, negsuc}
use maniflex.Events.Delivery.{Event, Failure, returned, Subscription, attempts, deliver_with_retry}
use maniflex.Events.Settled.{none_yet, fails, IsDisposed, deliver_exhausts, settled-IsDisposed}
use maniflex.Events.Dedupe.{DedupeStore, seen, evict, oldest_loop, Handler, dedupe}
use maniflex.Events.ReadBackoff.{ReadBackoff, next, double_loop}

abbrev World : Type 0
World = ℕ × List String

abbrev event : Event ℕ
event = record { id = "e1"; type_of = "invoice.paid"; headers = []; rest = 0 }

-- A handler that succeeds from a number of calls on.
abbrev succeeds_from : ℕ → Event ℕ → World → World × Option Failure
succeeds_from n e (calls, sent) =
    ((suc calls, sent), if ltb calls n then some (returned "down") else none)

abbrev subscription : ℕ → ℤ → Subscription ℕ World
subscription n retries = record {
  handler = succeeds_from n;
  max_retry = retries;
  has_backoff = true;
  dlq = "dead";
  on_panic = none;
}

abbrev publish : Event ℕ → World → World × Option String
publish e (calls, sent) = ((calls, e.id ∷ sent), none)

abbrev live : ℕ → Bool
live k = false

third_time_works :
    deliver_with_retry publish "f1" live (subscription 2 (pos 3)) event (0, []) ≡ ((3, []), true)
unfolding deliver_with_retry attempts
third_time_works = refl

-- A negative MaxRetry dead-letters without one attempt.
never_tried :
    deliver_with_retry publish "f1" live (subscription 0 (negsuc 0)) event (0, [])
    ≡ ((0, "f1" ∷ []), true)
unfolding deliver_with_retry attempts
never_tried = refl

deliver_exhausts_example :
    deliver_with_retry publish "f1" live (subscription 9 (pos 1)) event (0, [])
    ≡ ((2, "f1" ∷ []), true)
deliver_exhausts_example =
    deliver_exhausts publish "f1" live (subscription 9 (pos 1)) event (0, []) (2, []) (λ k. refl)
      (fails refl (fails refl none_yet))

settled-IsDisposed_example :
    IsDisposed publish "f1"
      (subscription 2 (pos 3))
      event
      (deliver_with_retry publish "f1" live (subscription 2 (pos 3)) event (0, [])).0
settled-IsDisposed_example =
    settled-IsDisposed publish "f1" live (subscription 2 (pos 3)) event (0, []) (cc)
      (ap (λ r. r.1) third_time_works)

abbrev full : DedupeStore
full = record { seen = ("a", 5) ∷ ("b", 3) ∷ []; max_size = 2; ttl = 100 }

evicts_the_oldest : (seen 9 "c" full).0.seen ≡ ("c", 9) ∷ ("a", 5) ∷ []
unfolding seen evict oldest_loop lookup insert delete
evicts_the_oldest = refl

abbrev counts : Handler ℕ
counts w = (suc w, none)

abbrev breaks : Handler ℕ
breaks w = (suc w, some "down")

new_id : (seen 9 "c" full).1 ≡ false
unfolding seen lookup
new_id = refl

failed_first : (dedupe breaks 9 "c" full 0).2 ≡ some "down"
unfolding dedupe seen lookup
failed_first = refl

abbrev noted_cap : ReadBackoff
noted_cap = record { min = 0; max = 0; n = 12; cap_noted = true }

-- A Max above 2 ^ 62: the doubling wraps past the largest duration, down to a delay of 0.
wraps_to_no_delay :
    (next 0 (record { min = 100000000; max = 9223372036854775807; n = 56; cap_noted = false })).2
    ≡ 0
unfolding next double_loop
wraps_to_no_delay = refl
