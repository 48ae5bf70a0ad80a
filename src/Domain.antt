-- ===== src/Domain.antt =====
-- The data of domain/: review chunks and their life cycle.
pub mod Chunks
pub mod Sources
