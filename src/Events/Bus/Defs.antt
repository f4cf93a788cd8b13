-- ===== src/Events/Bus/Defs.antt =====
-- events/inproc/inproc.go: Bus, its subscriptions, their workers, Publish, Subscribe, Cancel and Close.
--
-- `subs` keeps every subscription that was made, in order: those in b.subs are `registered`, and the
-- others are what their workers still hold. A worker is idle in its select, runs a delivery, or releases
-- what is left in the queue; workers of one subscription are told apart by what they do only. What
-- DeliverWithRetry does with an event is Events/Delivery; here an event that is delivered is in
-- `running`. Concurrency and QueueSize are numbers from 0 on; a negative one counts as 0.
use maniflex.Prelude.{
  ℕ, zero, suc, ◌+◌, Bool, true, false, not, ◌&&◌, ◌||◌, Option, none, some, List, [], ◌∷◌, ◌++◌,
  map, ltb, ◌==◌, if◌then◌else◌, length,
}
use maniflex.Prelude.Bytes.{Bytes, codes}
use maniflex.Events.Delivery.{Event}
use maniflex.Events.Bus.Glob.{matches_any}

pub record BusSubscription (R : Type 0) : Type 0 where
  pub id : ℕ
  pub patterns : List Bytes
  pub concurrency : ℕ
  pub queue : List (Event R)
  pub registered : Bool
  pub stopped : Bool
  pub idle : ℕ
  pub running : List (Event R)
  pub releasing : ℕ

pub record Bus (R : Type 0) : Type 0 where
  pub subs : List (BusSubscription R)
  pub seq : ℕ
  pub queue_size : ℕ
  pub inflight : ℕ
  pub closed : Bool
  -- rootCtx
  pub cancelled : Bool

pub data BusError : Type 0 where
  bus_closed : BusError
  queue_full : ℕ → ℕ → BusError
  drain_incomplete : BusError

abbrev pub default_queue_size : ℕ
default_queue_size = 1024

abbrev pub or_default : ℕ → ℕ → ℕ
or_default default n = if ltb 0 n then n else default

-- The last error of a walk is the one that Publish returns.
abbrev pub later : Option BusError → Option BusError → Option BusError
later first none = first
later first (some e) = some e

-- What a worker does next.
pub data Move : Type 0 where
  takes retires releases exits : Move
  finishes : ℕ → Move

abbrev pub remove_at {ℓ} : {A : Type ℓ} → ℕ → List A → Option (List A)
remove_at i [] = none
remove_at zero (x ∷ xs) = some xs
remove_at (suc i) (x ∷ xs) = elim (remove_at i xs) [ none ↦ none | some ys ↦ some (x ∷ ys) ]

abbrev pub or_star : List Bytes → List Bytes
or_star [] = (b'*' ∷ []) ∷ []
or_star (p ∷ ps) = p ∷ ps

module _ {R : Type 0} where
  unfoldable pub new : ℕ → Bus R
  new size = record {
    subs = [];
    seq = 0;
    queue_size = or_default default_queue_size size;
    inflight = 0;
    closed = false;
    cancelled = false;
  }

  abbrev pub wants : Event R → BusSubscription R → Bool
  wants e s = s.registered && matches_any s.patterns (codes e.type_of)

  abbrev pub enqueued : Event R → BusSubscription R → BusSubscription R
  enqueued e s = record s { queue = s.queue ++ (e ∷ []) }

  abbrev pub has_room : ℕ → BusSubscription R → Bool
  has_room size s = ltb (length s.queue) size

  -- The send that does not block.
  abbrev pub offer : Event R → ℕ → BusSubscription R → BusSubscription R
  offer e size s = if wants e s && has_room size s then enqueued e s else s

  abbrev pub accepted : Event R → ℕ → BusSubscription R → ℕ
  accepted e size s = if wants e s && has_room size s then 1 else 0

  abbrev pub refusal : Event R → ℕ → BusSubscription R → Option BusError
  refusal e size s =
      if wants e s && not (has_room size s) then some (queue_full s.id size) else none

  -- The walk over the subscriptions: what becomes of them, how many took the event, and the error.
  unfoldable pub walk :
      Event R → ℕ → List (BusSubscription R) → List (BusSubscription R) × ℕ × Option BusError
  walk e size [] = ([], 0, none)
  walk e size (s ∷ ss) =
      let (rest, n, full) = walk e size ss in
      (offer e size s ∷ rest, accepted e size s + n, later (refusal e size s) full)

  unfoldable pub publish : Event R → Bus R → Bus R × Option BusError
  unfolding walk
  publish e b =
      let (subs, n, full) = walk e b.queue_size b.subs in
      if b.closed
      then (b, some bus_closed)
      else (record b { subs = subs; inflight = b.inflight + n }, full)

  -- PublishBatch
  unfoldable pub publish_batch : List (Event R) → Bus R → Bus R × Option BusError
  unfolding publish
  publish_batch [] b = (b, none)
  publish_batch (e ∷ es) b =
      let rest = publish_batch es (publish e b).0 in
      elim (publish e b).1 [ some err ↦ ((publish e b).0, some err) | none ↦ rest ]

  unfoldable pub subscribe : List Bytes → ℕ → Bus R → Bus R
  subscribe patterns concurrency b = record b {
    seq = b.seq + 1;
    subs =
        b.subs
        ++ (record {
          id = b.seq + 1;
          patterns = or_star patterns;
          concurrency = or_default 1 concurrency;
          queue = [];
          registered = true;
          stopped = false;
          idle = or_default 1 concurrency;
          running = [];
          releasing = 0;
        }
            ∷ []);
  }

  -- The two halves of Cancel: the subscription leaves b.subs, and then its workers are told to stop.
  abbrev pub unregistered : ℕ → BusSubscription R → BusSubscription R
  unregistered id s = if s.id == id then record s { registered = false } else s

  unfoldable pub unregister : ℕ → Bus R → Bus R
  unregister id b = record b { subs = map (unregistered id) b.subs }

  abbrev pub told : ℕ → BusSubscription R → BusSubscription R
  told id s = if s.id == id && not s.registered then record s { stopped = true } else s

  unfoldable pub stop_workers : ℕ → Bus R → Bus R
  stop_workers id b = record b { subs = map (told id) b.subs }

  unfoldable pub close : Bus R → Bus R
  close b = record b { closed = true }

  -- The end of the Close that closed the bus: when its time is up, what is still delivered is cancelled;
  -- before that it waits for the counter to be at zero.
  unfoldable pub close_returns : Bool → Bus R → Option (Bus R × Option BusError)
  close_returns true b = some (record b { cancelled = true }, some drain_incomplete)
  close_returns false b =
      if b.inflight == 0 then some (record b { cancelled = true }, none) else none

  abbrev pub take_event : BusSubscription R → ℕ → List (Event R) → Option (BusSubscription R × ℕ)
  take_event s (suc n) (e ∷ q) = some (record s { idle = n; queue = q; running = e ∷ s.running }, 0)
  take_event s _ _ = none

  abbrev pub finish_event :
      BusSubscription R → Option (List (Event R)) → Option (BusSubscription R × ℕ)
  finish_event s none = none
  finish_event s (some rest) = some (record s { running = rest; idle = s.idle + 1 }, 1)

  abbrev pub retire : BusSubscription R → Bool → ℕ → Option (BusSubscription R × ℕ)
  retire s true (suc n) = some (record s { idle = n; releasing = s.releasing + 1 }, 0)
  retire s _ _ = none

  abbrev pub release_event : BusSubscription R → ℕ → List (Event R) → Option (BusSubscription R × ℕ)
  release_event s (suc n) (e ∷ q) = some (record s { queue = q }, 1)
  release_event s _ _ = none

  abbrev pub exit : BusSubscription R → ℕ → List (Event R) → Option (BusSubscription R × ℕ)
  exit s (suc n) [] = some (record s { releasing = n }, 0)
  exit s _ _ = none

  -- One step of runWorker and releaseQueued, where one of the workers can do it: the subscription then,
  -- and how many events are discounted.
  unfoldable pub move : Move → Bool → BusSubscription R → Option (BusSubscription R × ℕ)
  move takes cancelled s = take_event s s.idle s.queue
  move (finishes i) cancelled s = finish_event s (remove_at i s.running)
  move retires cancelled s = retire s (s.stopped || cancelled) s.idle
  move releases cancelled s = release_event s s.releasing s.queue
  move exits cancelled s = exit s s.releasing s.queue
