-- ===== src/Service.antt =====
-- The services' transactions on the database: apps/api/src and apps/worker/src.
pub mod Transaction
pub mod Idempotency
pub mod Writes
pub mod Queries
pub mod Replay
