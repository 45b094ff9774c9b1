-- ===== src/Governance.antt =====
-- pkg/governance: the limits on sandbox creation.
pub mod Policy
pub mod Store
pub mod Engine
mod Tests
