-- ===== src/Courier.antt =====
-- Couriers: apps/api/src/courier.
pub mod Policy
pub mod Eligibility
