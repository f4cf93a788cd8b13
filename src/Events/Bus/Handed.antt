-- ===== src/Events/Bus/Handed.antt =====
-- events/inproc/inproc.go: whom Publish reaches.
use maniflex.Prelude.{if◌then◌else◌}
use maniflex.Events.Delivery.{Event}
use maniflex.Events.Bus.Defs.{BusSubscription, Bus, wants, enqueued}

module _ {R : Type 0} where
  abbrev pub handed : Event R → BusSubscription R → BusSubscription R
  handed e s = if wants e s then enqueued e s else s
