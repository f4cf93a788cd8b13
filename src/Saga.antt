-- ===== src/Saga.antt =====
-- pkg/saga: a sequence of steps with compensating actions.
mod Defs
pub mod Compensation
unfoldable pub use Defs.*
