-- ===== src/Files.antt =====
-- file_range.go: downloads of stored files and the Range header.
pub mod ByteRange
pub mod Serve
pub mod Window
pub mod Honest
