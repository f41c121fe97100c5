-- ===== src/Work.antt =====
-- internal/work: the durable queue of work units and the pool that runs them.
pub mod Rows
pub mod Counting
pub mod Store
pub mod Invariant
pub mod Claim
pub mod Steps
pub mod Life
pub mod Fresh
pub mod Lanes
pub mod Keys
pub mod Waiting
pub mod Pool
pub mod Worked
pub mod Single
pub mod Progress
mod Examples
