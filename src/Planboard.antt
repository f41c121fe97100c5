-- ===== src/Planboard.antt =====
-- internal/planboard: plans of ordered steps, and the position of each binding in its plan.
pub mod Rows
pub mod Catalogue
pub mod Position
pub mod Bounds
pub mod Moves
pub mod Edits
pub mod Attach
pub mod Walk
pub mod Progress
pub mod Effects
pub mod Saved
pub mod Active
pub mod Fronts
pub mod Served
pub mod Listing
mod Examples
