-- ===== src/Retry.antt =====
-- The retry queue: nexus-watcher/src/events/retry/.
pub mod Entry
pub mod Backoff
pub mod Store
pub mod Nonce
pub mod InMemory
pub mod Redis
pub mod Config
pub mod Scheduler
pub mod Processor
mod Tests
