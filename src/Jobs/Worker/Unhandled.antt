-- ===== src/Jobs/Worker/Unhandled.antt =====
-- jobs/worker.go: a job that no worker handles is dead-lettered after a bounded number of deliveries.
use maniflex.Prelude.{
  ℕ, zero, suc, ◌+◌, ◌^◌, ◌<◌, String, ◌≡◌, refl, ap, ◌∙◌, true, false, none, some, arith, leb,
  if◌then◌else◌,
}
use maniflex.Prelude.Itoa.{itoa, atoi, atoi-itoa}
use maniflex.Request.Context.Map.{Map, lookup, insert}
use maniflex.Jobs.Job.{enqueued, running, Job}
use maniflex.Jobs.Worker.Defs.{
  Effect, WorkerConfig, no_info, unhandled_header, unhandled_error, not_negative, header_value,
  unhandled_count, bounced, transition, mark_dead, bounce, unhandled_requeue_delay, when_done,
  dispatch, requeue_with, handle,
}

-- The next delivery of a job that was requeued: Dequeue counts it as an attempt.
abbrev pub redelivered : Job → Job
redelivered j = record (bounced j) { attempts = (bounced j).attempts + 1 }

-- The job as it is delivered after a number of requeues.
abbrev pub after_bounces : ℕ → Job → Job
after_bounces zero j = j
after_bounces (suc k) j = redelivered (after_bounces k j)

count-insert :
    (m : Map String) (n : ℕ)
    → n < 2 ^ 63
    → not_negative
        (atoi (header_value (lookup unhandled_header (insert unhandled_header (itoa n) m))))
      ≡ n
unfolding lookup insert
count-insert m n h = ap not_negative (atoi-itoa n h)

count-bounced :
    (j : Job) → unhandled_count j + 1 < 2 ^ 63 → unhandled_count (bounced j) ≡ unhandled_count j + 1
unfolding bounced
count-bounced j h = count-insert j.headers (unhandled_count j + 1) h

attempts-redelivered : (j : Job) → 0 < j.attempts → (redelivered j).attempts ≡ j.attempts
unfolding bounced
attempts-redelivered j h = ground arith

type-redelivered : (j : Job) → (redelivered j).type_of ≡ j.type_of
unfolding bounced
type-redelivered j = refl

count-redelivered : (j : Job) → unhandled_count (redelivered j) ≡ unhandled_count (bounced j)
unfolding unhandled_count
count-redelivered j = refl

-- Requeues count up by one, and the budget of attempts is as it was.
record AfterBounces (j : Job) (k : ℕ) : Type 0 where
  counts : unhandled_count (after_bounces k j) ≡ k
  attempts : (after_bounces k j).attempts ≡ j.attempts
  type_of : (after_bounces k j).type_of ≡ j.type_of

after_bounces_lem :
    (j : Job) (k : ℕ) → unhandled_count j ≡ 0 → 0 < j.attempts → k < 2 ^ 63 → AfterBounces j k
after_bounces_lem j zero c a h = record { counts = c; attempts = refl; type_of = refl }
after_bounces_lem j (suc k) c a h =
    let ih = after_bounces_lem j k c a (omega arith) in
    let job = after_bounces k j in
    record {
      counts =
          count-redelivered job
          ∙ count-bounced job (omega (arith, ih.counts))
          ∙ omega (arith, ih.counts);
      attempts = attempts-redelivered job (omega (arith, ih.attempts)) ∙ ih.attempts;
      type_of = type-redelivered job ∙ ih.type_of;
    }

module _ {W : Type 0} where
  handle_unhandled :
      (encode : Job → String → String) (cfg : WorkerConfig W) (requeue : Job → ℕ → Effect W)
      (j : Job) (w : W)
      → cfg.source.requeue ≡ some requeue
      → lookup j.type_of cfg.handlers ≡ none
      → let w' = transition cfg j enqueued running no_info w in
        handle encode cfg j w ≡ (
          if leb cfg.max_unhandled_requeues (unhandled_count j)
          then mark_dead encode cfg j unhandled_error w'
          else bounce cfg requeue j w')
  unfolding handle
  handle_unhandled encode cfg requeue j w can none_for =
      let w' = transition cfg j enqueued running no_info w in
      ap (λ o. dispatch encode cfg j o w') none_for
      ∙ ap (λ r. requeue_with encode cfg r j unhandled_error w') can

  -- A job of a type that the worker has no handler for, at a source that can requeue: each of its
  -- first MaxUnhandledRequeues deliveries gives back to Requeue a job that, with one attempt more, is
  -- the job of the next delivery, and that next one buries it which follows the last of them. So it is
  -- delivered MaxUnhandledRequeues + 1 times, and no attempt of its budget is spent. It starts without
  -- the counter and with the attempt that Dequeue counted.
  pub unhandled_bounded :
      (encode : Job → String → String) (cfg : WorkerConfig W) (requeue : Job → ℕ → Effect W)
      (j : Job) (k : ℕ) (w : W)
      → cfg.source.requeue ≡ some requeue
      → lookup j.type_of cfg.handlers ≡ none
      → unhandled_count j ≡ 0
      → 0 < j.attempts
      → k < 2 ^ 63
      → let job = after_bounces k j in
        let w' = transition cfg job enqueued running no_info w in
        (job.attempts ≡ j.attempts)
        × (k < cfg.max_unhandled_requeues
            → (after_bounces (suc k) j
                ≡ record (bounced job) { attempts = (bounced job).attempts + 1 })
              × (handle encode cfg job w
                  ≡ when_done
                      (requeue (bounced job) (unhandled_requeue_delay cfg) w')
                      (λ w''. transition cfg (bounced job) running enqueued no_info w'')))
        × (k ≡ cfg.max_unhandled_requeues
            → handle encode cfg job w ≡ mark_dead encode cfg job unhandled_error w')
  unhandled_bounded encode cfg requeue j k w can none_for c a h =
      let b = after_bounces_lem j k c a h in
      let job = after_bounces k j in
      let step =
        handle_unhandled encode cfg requeue job w can
          (ap (λ t. lookup t cfg.handlers) b.type_of ∙ none_for) in
      (
        b.attempts,
        λ more.
            let test : leb cfg.max_unhandled_requeues (unhandled_count job) ≡ false =
              rw b.counts (ground arith) in
            (refl, step ∙ rw test refl),
        λ last.
            let test : leb cfg.max_unhandled_requeues (unhandled_count job) ≡ true =
              rw b.counts (ground arith) in
            step ∙ rw test,
      )
