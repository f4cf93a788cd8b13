-- ===== src/Examples/BusRuns.antt =====
-- Runs of events/inproc/inproc.go.
use maniflex.Prelude.{◌≡◌, refl, true, false, none, some, [], ◌∷◌, All, arith}
use maniflex.Prelude.Bytes.{codes}
use maniflex.Events.Delivery.{Event}
use maniflex.Events.Bus.Glob.{path_match, matches_any}
use maniflex.Events.Bus.Defs.{
  Bus, BusSubscription, takes, finishes, queue_full, bus_closed, new, publish, publish_batch,
  subscribe, close, close_returns, move,
}
use maniflex.Events.Bus.Manned.{IsSound}
use maniflex.Events.Bus.Reachable.{
  Reaches, here, further, publishes, subscribes, moves, Reaches-IsSound,
}
use maniflex.Events.Bus.Drain.{IsIdle, GoesOn, close_clean, never_orphaned}

segment : path_match (codes "invoice.*") (codes "invoice.paid") ≡ true
unfolding path_match
segment = refl

no_slash : path_match (codes "invoice*") (codes "invoice/paid") ≡ false
unfolding path_match
no_slash = refl

classes : path_match (codes "v[0-9].?[^x]\\*") (codes "v2.ab*") ≡ true
unfolding path_match
classes = refl

malformed : path_match (codes "[]") (codes "]") ≡ false
unfolding path_match
malformed = refl

abbrev paid : Event Unit
paid = record { id = "1"; type_of = "invoice.paid"; headers = []; rest = tt }

abbrev mail : Event Unit
mail = record { id = "2"; type_of = "mail.sent"; headers = []; rest = tt }

-- Two subscriptions with room for one event each.
abbrev two_subs : Bus Unit
two_subs = subscribe [] 2 (subscribe (codes "invoice.*" ∷ []) 0 (new 1))

both_accept : (publish paid two_subs).1 ≡ none
unfolding publish subscribe new matches_any
both_accept = refl

second_refused : (publish_batch (paid ∷ mail ∷ []) two_subs).1 ≡ some (queue_full 2 1)
unfolding publish_batch subscribe new matches_any
second_refused = refl

closed_refuses : (publish paid (close two_subs)).1 ≡ some bus_closed
unfolding publish close
closed_refuses = refl

-- One subscription that takes its event, delivers it, and is left idle.
abbrev ready : BusSubscription Unit
ready = record {
  id = 1;
  patterns = codes "invoice.*" ∷ [];
  concurrency = 1;
  queue = [];
  registered = true;
  stopped = false;
  idle = 1;
  running = [];
  releasing = 0;
}

abbrev waiting : BusSubscription Unit
waiting = record ready { queue = paid ∷ [] }

abbrev delivering : BusSubscription Unit
delivering = record ready { idle = 0; running = paid ∷ [] }

abbrev bus_with : BusSubscription Unit → Bus Unit
bus_with s = record {
  subs = s ∷ [];
  seq = 1;
  queue_size = 1;
  inflight = 1;
  closed = false;
  cancelled = false;
}

queued : Reaches (new 1) (bus_with waiting)
unfolding publish subscribe new matches_any
queued = further (further here (subscribes (codes "invoice.*" ∷ []) 0)) (publishes paid)

drained : Reaches (new 1) (record (bus_with ready) { inflight = 0 })
unfolding move
drained =
    further (further queued (moves takes [] [] waiting delivering 0 refl refl))
      (moves (finishes 0) [] [] delivering ready 1 refl refl)

abbrev ended : Bus Unit
ended = record (bus_with ready) { inflight = 0; cancelled = true }

all_done : close_returns false (record (bus_with ready) { inflight = 0 }) ≡ some (ended, none)
unfolding close_returns
all_done = refl

Reaches-IsSound_example : IsSound (bus_with waiting)
Reaches-IsSound_example = Reaches-IsSound 1 (bus_with waiting) queued

close_clean_example : All IsIdle (ready ∷ [])
close_clean_example =
    close_clean 1 (record (bus_with ready) { inflight = 0 }) ended false drained all_done

never_orphaned_example : GoesOn false waiting
never_orphaned_example = never_orphaned 1 (bus_with waiting) [] [] waiting queued refl (omega arith)
