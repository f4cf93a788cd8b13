-- ===== src/Events.antt =====
-- events: delivery with retries, idempotent delivery, and the pacing of read loops.
pub mod Bus
pub mod Delivery
pub mod Settled
pub mod Dedupe
pub mod ReadBackoff
