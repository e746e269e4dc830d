-- ===== src/Finance.antt =====
-- Money: apps/api/src/finance.
pub mod Calendar
pub mod Domain
pub mod Accounts
pub mod Settlement
pub mod Postings
pub mod Payments
pub mod Closing
pub mod Adjustments
pub mod Allocation
pub mod Arithmetic
