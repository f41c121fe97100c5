-- ===== src/Inlet.antt =====
-- The inlet's checks of what a task takes and gives (internal/inlet/schema.go).
pub mod Json
pub mod Keyword
pub mod Schema
pub mod Validate
pub mod Body
pub mod Fits
pub mod Checks
pub mod Types
pub mod Accepted
pub mod Acceptance
pub mod Complete
pub mod Door
pub mod Fuel
pub mod Enough
pub mod Enforced
pub mod Supported
pub mod Whole
pub mod Examples
pub mod Refusals
pub mod Sound
