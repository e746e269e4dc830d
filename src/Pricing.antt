-- ===== src/Pricing.antt =====
-- The price of a delivery and the rule that it is computed by: apps/api/src/orders/order-domain.ts.
pub mod Price
pub mod Bounds
pub mod Rules
pub mod Ranking
pub mod Best
