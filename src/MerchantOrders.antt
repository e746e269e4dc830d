-- ===== src/MerchantOrders.antt =====
-- The merchant's and the administrators' side of an order: apps/api/src/orders/orders.service.ts.
pub mod Retry
pub mod Cancel
pub mod Effects
pub mod Create
pub mod Created
pub mod Committed
pub mod CreatedOnce
