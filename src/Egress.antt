-- ===== src/Egress.antt =====
-- internal/egress: the one pending approval.
pub mod Broker
pub mod Events
pub mod Sound
pub mod Final
mod Examples
