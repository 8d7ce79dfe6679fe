-- ===== src/Tests.antt =====
-- The properties at concrete inputs.
pub mod Data
pub mod Mutations
pub mod Documents
pub mod Commits
pub mod Queries
pub mod Schema
pub mod Indexes
mod Repositories
pub mod Entries
mod Machine
