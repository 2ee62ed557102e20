-- ===== src/Jobs.antt =====
-- The daemon's scheduled jobs: nexusd/src/jobs/.
pub mod Lock
pub mod Fire
pub mod Scheduler
mod Tests
