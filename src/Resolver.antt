-- ===== src/Resolver.antt =====
-- The resolver of users' homeservers: nexus-watcher/src/service/user_hs_resolver.rs.
pub mod Bisection
pub mod Unbound
pub mod Record
pub mod Resolve
pub mod Run
mod Tests
