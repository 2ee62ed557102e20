-- ===== src/Indexer.antt =====
-- The event processors: nexus-watcher/src/service/indexer/.
pub mod Processor
pub mod UserEvents
pub mod Primary
pub mod UserRun
mod Tests
