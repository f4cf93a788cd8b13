-- ===== src/Events/Bus.antt =====
-- events/inproc/inproc.go: the in-process event bus.
pub mod Glob
pub mod Defs
pub mod Manned
pub mod Offered
pub mod Reachable
pub mod Drain
pub mod Handed
