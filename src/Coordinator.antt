-- ===== src/Coordinator.antt =====
-- src/utils/coordinator: the record of subscriptions per server that a coordinator keeps, and the plans
-- by which it moves subscriptions between servers.
pub mod Double
pub mod Status
pub mod Plan
