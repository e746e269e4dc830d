-- ===== src/Operations.antt =====
-- Disputes, returns and their rules: apps/api/src/operations.
pub mod Domain
pub mod Disputes
pub mod Resolutions
pub mod Returns
