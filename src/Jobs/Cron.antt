-- ===== src/Jobs/Cron.antt =====
-- jobs/cron/cron.go: recurring jobs.
pub mod Defs
pub mod Once
