-- ===== src/Broker.antt =====
-- The broker: broker/src.
pub mod Permission
pub mod Node
pub mod Query
pub mod Subscription
pub mod Subscribe
