-- ===== src/Request/Writes.antt =====
-- What the body of a write holds after the fixed segments of the pipeline: the stamps of the server
-- stand, and what a client may not write is gone (typed_body.go, steps.go).
pub mod Strip
pub mod Stamps
pub mod Sync
pub mod Columns
