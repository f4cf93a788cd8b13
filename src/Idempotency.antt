-- ===== src/Idempotency.antt =====
-- middleware/idempotency/idempotency.go: responses that are replayed under an idempotency key.
pub mod Defs
pub mod Replayed
