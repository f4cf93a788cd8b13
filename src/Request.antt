-- ===== src/Request.antt =====
-- The request: operations, models and the per-request context (context.go, typed_body.go,
-- request_body.go and the client-write strip of steps.go).
pub mod Operation
pub mod Context
pub mod Writes
