-- ===== src/Secrets.antt =====
-- The removal of secret values from what a run puts out (internal/secrets/redact.go).
pub mod Redact
pub mod Hidden
pub mod Firm
pub mod Across
pub mod Stream
pub mod Kept
pub mod Tap
pub mod Apart
pub mod Tapped
mod Examples
