-- ===== src/Agent.antt =====
-- pkg/router/agent/invoke.go: the runs of a sandbox's agent, how they are admitted, started, ended and
-- cancelled.
pub mod Quote
pub mod Tracker
pub mod Invoke
mod Tests
