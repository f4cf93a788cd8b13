-- ===== src/Workflow.antt =====
-- middleware/workflow: a state machine on a field of a model.
mod Defs
pub mod Rules
pub mod Transitions
unfoldable pub use Defs.*
