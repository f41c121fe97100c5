-- ===== src/View.antt =====
-- internal/view: the comparison of two versions of a file.
pub mod Diff
pub mod Table
pub mod Longest
pub mod Lines
mod Examples
