-- ===== src/Service.antt =====
-- internal/memoryservice: the operations on a memory store.
pub mod Paths
pub mod Store
pub mod Operation
pub mod Request
pub mod Apply
pub mod Query
