-- ===== src/Reconcile.antt =====
-- pkg/controller/sandbox_controller.go and lifecycle.go: the reconcile loop of a sandbox.
pub mod World
pub mod Pods
pub mod Handlers
pub mod Cleanup
pub mod Creating
pub mod Provisioning
pub mod Isolation
pub mod Manual
pub mod Stopping
pub mod Restarting
pub mod Deleting
mod Tests
