-- ===== src/Repository.antt =====
-- The repositories over the database: internal/repository.
pub mod Users
pub mod Actors
pub mod Executor
