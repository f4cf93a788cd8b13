-- ===== src/Jobs/Worker.antt =====
-- jobs/worker.go: what a worker does with one job, and what becomes of the job.
mod Defs
pub mod OnQueue
pub mod Settles
pub mod Unhandled
unfoldable pub use Defs.*
