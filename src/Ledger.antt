-- ===== src/Ledger.antt =====
-- pkg/ledger/ledger.go: the posting of journal entries.
pub mod Lines
pub mod Post
pub mod Balanced
pub mod Closed
pub mod Atomic
