-- ===== src/Memo.antt =====
-- cache.go: the process-local cache with expiry.
pub mod MemoryCache
pub mod Pruned
pub mod Transparent
