-- ===== src/Schedule.antt =====
-- internal/schedule/spec.go: when something should next happen.
pub mod Duration
pub mod Spec
pub mod Next
pub mod Table
pub mod Store
pub mod Firing
pub mod Later
pub mod Targets
pub mod Rewritten
pub mod Waits
pub mod Tick
pub mod Once
pub mod Ranges
mod Examples
