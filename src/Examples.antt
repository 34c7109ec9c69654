-- ===== src/Examples.antt =====
-- Runs of the model at concrete inputs.
mod Fixtures
mod Requests
mod Rules
mod Edges
mod Authentic
mod Outbound
mod Settings
mod Records
mod Webhooks
