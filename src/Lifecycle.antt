-- ===== src/Lifecycle.antt =====
-- The life of a sandbox: its phases and the actions that each allows, its timeouts, and the backoff
-- between automatic restarts.
pub mod Phase
pub mod Actions
pub mod Timeouts
pub mod Backoff
mod Tests
