-- ===== src/Realtime.antt =====
-- realtime: the buffer that lets a client that reconnects see what it missed.
pub mod Resume
pub mod Ring
pub mod Replay
