-- ===== src/Webhook.antt =====
-- pkg/controller/webhook_delivery: which events reach which subscription, and the delivery state.
pub mod Subscription
pub mod Events
pub mod Cursor
pub mod State
pub mod Deliverer
mod Tests
