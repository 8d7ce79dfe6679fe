-- ===== src/Repository.antt =====
-- internal/repository: the Git repository under a memory store.
pub mod Message
pub mod Git
