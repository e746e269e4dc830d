-- ===== src/Admin.antt =====
-- The arithmetic of the administration: apps/api/src/admin/admin-operations-domain.ts.
pub mod Domain
pub mod Zones
pub mod Shares
