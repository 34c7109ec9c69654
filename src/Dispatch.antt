-- ===== src/Dispatch.antt =====
-- src/dispatch.rs: the delivery of webhooks, with `AuthMode` of src/entities/webhook_config.rs.
pub mod Templates
pub mod Modes
pub mod Prepare
pub mod Delivery
pub mod Screen
