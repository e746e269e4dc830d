-- ===== src/Contracts.antt =====
-- The words that the applications share: packages/contracts/src.
pub mod Rbac
pub mod Roles
