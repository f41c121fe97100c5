-- ===== src/Websearch.antt =====
-- What a search may reach and what it may say (internal/websearch/policy.go).
pub mod Address
pub mod Octets
pub mod Groups
pub mod Reach
pub mod Authority
pub mod Query
pub mod Approved
pub mod Written
pub mod Permitted
pub mod Examples
