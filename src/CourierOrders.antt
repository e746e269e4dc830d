-- ===== src/CourierOrders.antt =====
-- The courier's side of an order: apps/api/src/courier-orders.
pub mod Accept
pub mod Lifecycle
pub mod Cancel
pub mod Exclusive
pub mod Effects
