-- ===== src/Retry/Config.antt =====
-- `EventRetryConfig` of nexus-common/src/config/watcher.rs.
use pubky_nexus.Base.{ℕ}

pub record EventRetryConfig : Type 0 where
  pub max_retries : ℕ  -- u32
  pub max_dependency_retries : ℕ  -- u32
  pub initial_backoff_secs : ℕ  -- u64
  pub max_backoff_secs : ℕ  -- u64
  pub initial_missing_dep_backoff_secs : ℕ  -- u64
  pub max_missing_dep_backoff_secs : ℕ  -- u64
