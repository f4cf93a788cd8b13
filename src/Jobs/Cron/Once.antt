-- ===== src/Jobs/Cron/Once.antt =====
-- jobs/cron/cron.go: replicas that share a Locker fire an entry once for each interval.
use maniflex.Prelude.{
  ℕ, ◌+◌, ◌*◌, ◌/◌, ◌≤◌, ◌≡◌, refl, sym, ap, ◌∙◌, ◌⊎◌, inl, inr, String, true, false, Option, some,
  List, [], ◌∷◌, if◌then◌else◌, arith, All, All-map, ◌++◌,
}
use native.Mathlib.Nat.{mod-add-div'}
use maniflex.Prelude.Bytes.{Bytes, codes}
use maniflex.Jobs.Job.{Job}
use maniflex.Jobs.Cron.Defs.{
  Entry, Grant, granted, refused, unavailable, Scheduler, truncate, unix, name_of, fire_key,
  claim_with, decided, fire, tick, print_int,
}

-- A Locker that answers and gives a key to one caller: once `key` is given it is refused, whatever
-- else is asked for it, and whatever the queue is given. `Given` holds of the worlds in which it is given.
pub record GrantsOnce {W : Type 0} (acquire : Bytes → ℕ → W → W × Grant)
    (enqueue : Job → ℕ → W → W × Option String) (key : Bytes) (Given : W → Type 0) : Type 0 where
  pub gives :
      (every : ℕ) (w : W)
      → ((acquire key every w).1 ≡ refused)
        ⊎ (((acquire key every w).1 ≡ granted) × Given (acquire key every w).0)
  pub refuses : (every : ℕ) (w : W) → Given w → (acquire key every w).1 ≡ refused
  pub holds : (every : ℕ) (w : W) → Given w → Given (acquire key every w).0
  pub rests : (j : Job) (t : ℕ) (w : W) → Given w → Given (enqueue j t w).0

truncate_bucket : (t d : ℕ) → truncate t d ≡ t / d * d
truncate_bucket t d = omega (arith, mod-add-div' t d)

-- The ticks of one interval of an entry make one key, whichever replica ticks.
pub fire_key-same :
    (show : ℕ → Bytes) (e : Entry) (t t' : ℕ)
    → t / e.every ≡ t' / e.every
    → fire_key show e t ≡ fire_key show e t'
unfolding fire_key
fire_key-same show e t t' k =
    ap
      (λ b.
        codes "cron|"
        ++ (codes (name_of e) ++ (b'|' ∷ (show e.every ++ (b'|' ∷ print_int (unix b))))))
      (truncate_bucket t e.every ∙ ap (λ q. q * e.every) k ∙ sym (truncate_bucket t' e.every))

-- How often an entry fires at these ticks, one after the other, of whatever replicas.
abbrev pub firings : {W : Type 0} → (ℕ → Bytes) → Scheduler W → Entry → List ℕ → W → ℕ
firings show s e [] w = 0
firings show s e (t ∷ ts) w =
    (if (tick show s e t w).1 then 1 else 0) + firings show s e ts (tick show s e t w).0

module _ {W : Type 0} (show : ℕ → Bytes) (s : Scheduler W) (e : Entry)
    (acquire : Bytes → ℕ → W → W × Grant) (key : Bytes) (Given : W → Type 0)
    (shared : s.locker ≡ some acquire) (laws : GrantsOnce acquire s.enqueue_at key Given) where
  tick-acquire :
      (t : ℕ) (w : W)
      → fire_key show e t ≡ key
      → tick show s e t w ≡ fire s e t (decided (acquire key e.every w))
  unfolding tick
  tick-acquire t w same =
      ap (λ l. fire s e t (claim_with l (fire_key show e t) e.every w)) shared
      ∙ ap (λ k. fire s e t (decided (acquire k e.every w))) same

  refused-tick : (t : ℕ) (r : W × Grant) → r.1 ≡ refused → fire s e t (decided r) ≡ (r.0, false)
  refused-tick t (w, refused) h = refl
  refused-tick t (w, granted) h = cc
  refused-tick t (w, unavailable) h = cc

  given-never :
      (ts : List ℕ) (w : W)
      → All (λ t. fire_key show e t ≡ key) ts
      → Given w
      → firings show s e ts w ≡ 0
  given-never [] w h g = refl
  given-never (t ∷ ts) w h g =
      let silent : tick show s e t w ≡ ((acquire key e.every w).0, false) =
        tick-acquire t w h.0 ∙ refused-tick t (acquire key e.every w) (laws.refuses e.every w g) in
      rw silent
        (omega (arith, given-never ts (acquire key e.every w).0 h.1 (laws.holds e.every w g)))

  granted-tick :
      (t : ℕ) (r : W × Grant)
      → r.1 ≡ granted
      → fire s e t (decided r) ≡ ((s.enqueue_at (record e.job { id = "" }) t r.0).0, true)
  granted-tick t (w, granted) h = refl
  granted-tick t (w, refused) h = cc
  granted-tick t (w, unavailable) h = cc

  at_most_once :
      (ts : List ℕ) (w : W) → All (λ t. fire_key show e t ≡ key) ts → firings show s e ts w ≤ 1
  at_most_once [] w h = omega arith
  at_most_once (t ∷ ts) w h = elim (laws.gives e.every w) [
    | inl is_refused ↦
        let silent : tick show s e t w ≡ ((acquire key e.every w).0, false) =
          tick-acquire t w h.0 ∙ refused-tick t (acquire key e.every w) is_refused in
        rw silent (omega (arith, at_most_once ts (acquire key e.every w).0 h.1))
    | inr (is_granted, given) ↦
        let job : Job = record e.job { id = "" } in
        let v : W = (acquire key e.every w).0 in
        let fires : tick show s e t w ≡ ((s.enqueue_at job t v).0, true) =
          tick-acquire t w h.0 ∙ granted-tick t (acquire key e.every w) is_granted in
        rw fires
          (omega (arith, given-never ts (s.enqueue_at job t v).0 h.1 (laws.rests job t v given)))
  ]

-- Of all the ticks of an entry within one of its intervals, whichever replicas they are of, at most one
-- hands the job to the queue, if the replicas share a Locker that answers and gives a key to one caller.
pub fires_once :
    {W : Type 0} (show : ℕ → Bytes) (s : Scheduler W) (e : Entry)
    (acquire : Bytes → ℕ → W → W × Grant) (Given : W → Type 0) (n : ℕ) (ts : List ℕ) (w : W)
    → s.locker ≡ some acquire
    → GrantsOnce acquire s.enqueue_at (fire_key show e n) Given
    → All (λ t. t / e.every ≡ n / e.every) ts
    → firings show s e ts w ≤ 1
fires_once show s e acquire Given n ts w shared laws together =
    at_most_once show s e acquire (fire_key show e n) Given shared laws ts w
      (All-map (λ t same. fire_key-same show e t n same) ts together)
