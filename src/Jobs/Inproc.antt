-- ===== src/Jobs/Inproc.antt =====
-- jobs/inproc/queue.go: the in-process queue.
--
-- `entries` is the slice of pointers: a handle stands for the address of an entry, and byID maps an
-- id to a handle, so an entry that both reach is one object. An id can be enqueued twice; the queue
-- does not refuse it. time.Now and the id of a new job are arguments. notifyCh, buffered by one, is
-- the Boolean `notified`. The mutex makes each operation one step.
mod Defs
mod Queries
pub mod Finds
pub mod Counts
pub mod Claims
pub mod Invariant
pub mod Preserve
pub mod Reachable
pub mod Take
pub mod Listing
pub mod Resolve
pub mod Release
unfoldable pub use Defs.*
unfoldable pub use Queries.*
