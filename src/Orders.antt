-- ===== src/Orders.antt =====
-- The orders of the delivery marketplace: apps/api/src/orders.
pub mod Status
pub mod Finalization
pub mod Transitions
pub mod FinalizedOnce
