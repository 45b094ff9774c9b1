-- ===== src/WarmPool.antt =====
-- pkg/controller/warmpool/pool.go: pods kept ready, to be claimed by new sandboxes.
pub mod Pods
pub mod Config
pub mod Claim
pub mod Race
pub mod Scaling
pub mod Orphans
mod Tests
