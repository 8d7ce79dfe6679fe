-- ===== src/Index.antt =====
-- internal/indexer: the machine indexes under index/.
pub mod Codec
pub mod Chunks
pub mod Terms
pub mod Machine
pub mod Query
pub mod Human
pub mod Generate
