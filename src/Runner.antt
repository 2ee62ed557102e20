-- ===== src/Runner.antt =====
-- The runners and what they keep between runs: nexus-watcher/src/service/runner/ and
-- nexus-watcher/src/service/stats.rs.
pub mod Stats
pub mod HsBackoff
pub mod UserBackoff
pub mod Run
pub mod Resume
mod Tests
