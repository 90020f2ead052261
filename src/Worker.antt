-- ===== src/Worker.antt =====
-- The background worker: internal/worker.
pub mod Tasks
pub mod Handlers
pub mod Broker
