-- ===== src/Plugin.antt =====
-- internal/plugin: in which order the enabled plugins are layered.
pub mod Order
pub mod Degrees
pub mod Kahn
pub mod Edges
pub mod Start
pub mod Layers
pub mod Name
pub mod Naming
pub mod Version
pub mod Comparing
pub mod Interval
mod Versioned
mod Examples
