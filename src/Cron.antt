-- ===== src/Cron.antt =====
-- internal/cron/cron.go: parsing of cron expressions and the search for the next run.
pub mod Bytes
pub mod Parse
pub mod Schedule
pub mod Values
pub mod Search
