-- ===== src/Jobs.antt =====
-- Background jobs (jobs/): the job and its retry policy, the in-process queue, and the worker.
pub mod Job
pub mod Backoff
pub mod Inproc
pub mod Cron
pub mod Worker
