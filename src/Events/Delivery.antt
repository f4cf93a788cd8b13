-- ===== src/Events/Delivery.antt =====
-- events/events.go: Event, DeliverWithRetry and deliverOnce.
--
-- `W` is the state that the handler, the hook and the publisher act on. `gone k` says whether the
-- context ended in the wait after attempt k; the length of the waits is not modelled, nor the log. The
-- id that newID mints is an argument. `rest` stands for the fields of an event that are only copied.
use maniflex.Prelude.{
  ℕ, zero, suc, ◌+◌, String, Bool, true, false, not, ◌&&◌, Option, none, some, ltb, str_eq,
  if◌then◌else◌,
}
use maniflex.Prelude.Int.{ℤ, pos, negsuc}
use maniflex.Request.Context.Map.{Map, insert}

pub record Event (R : Type 0) : Type 0 where
  pub id : String
  pub type_of : String
  pub headers : Map String
  pub rest : R

-- How a handler fails: with an error, or by a panic.
pub data Failure : Type 0 where
  returned panicked : String → Failure

pub record Subscription (R W : Type 0) : Type 0 where
  pub handler : Event R → W → W × Option Failure
  pub max_retry : ℤ
  pub has_backoff : Bool
  pub dlq : String
  pub on_panic : Option (Event R → String → W → W)

-- How the loop of the attempts ends.
pub data Ending : Type 0 where
  succeeded abandoned exhausted : Ending

-- How often `attempt <= sub.MaxRetry` holds, counted from 0.
abbrev pub turns : ℤ → ℕ
turns (pos n) = n + 1
turns (negsuc n) = 0

abbrev pub on_attempt : {W : Type 0} → W × Option Failure → Bool → W × Ending → W × Ending
on_attempt (w, none) stop rest = (w, succeeded)
on_attempt (w, some f) stop rest = if stop then (w, abandoned) else rest

abbrev pub published : {W : Type 0} → W × Option String → W × Bool
published (w, none) = (w, true)
published (w, some err) = (w, false)

module _ {R W : Type 0} where
  abbrev pub report :
      Option (Event R → String → W → W) → Event R → W × Option Failure → W × Option Failure
  report (some hook) e (w, some (panicked v)) = (hook e v w, some (panicked v))
  report _ e r = r

  abbrev pub deliver_once : Subscription R W → Event R → W → W × Option Failure
  deliver_once sub e w = report sub.on_panic e (sub.handler e w)

  -- The loop, with the turns that are left: a turn is the last when none is left behind it.
  unfoldable pub attempts : Subscription R W → Event R → (ℕ → Bool) → ℕ → ℕ → W → W × Ending
  attempts sub e gone zero attempt w = (w, exhausted)
  attempts sub e gone (suc n) attempt w =
      let r = deliver_once sub e w in
      on_attempt r (ltb 0 n && (sub.has_backoff && gone attempt))
        (attempts sub e gone n (suc attempt) r.0)

  -- The event that goes to the dead-letter type.
  abbrev pub dead_letter : String → Subscription R W → Event R → Event R
  dead_letter fresh sub e = record e {
    id = fresh;
    type_of = sub.dlq;
    headers = insert "original_id" e.id (insert "original_type" e.type_of e.headers);
  }

  abbrev pub settle :
      (Event R → W → W × Option String)
      → String
      → Subscription R W
      → Event R
      → W × Ending
      → W × Bool
  settle publish fresh sub e (w, succeeded) = (w, true)
  settle publish fresh sub e (w, abandoned) = (w, false)
  settle publish fresh sub e (w, exhausted) =
      if not (str_eq sub.dlq "") then published (publish (dead_letter fresh sub e) w) else (w, true)

  unfoldable pub deliver_with_retry :
      (Event R → W → W × Option String)
      → String
      → (ℕ → Bool)
      → Subscription R W
      → Event R
      → W
      → W × Bool
  unfolding attempts
  deliver_with_retry publish fresh gone sub e w =
      settle publish fresh sub e (attempts sub e gone (turns sub.max_retry) 0 w)
