-- ===== src/Books.antt =====
-- The books of the couriers: what the handlers of apps/api/src/finance keep true of the accounts.
pub mod Invariant
pub mod Refresh
pub mod Extending
pub mod Paying
pub mod Reversing
pub mod Closing
pub mod Handlers
pub mod Commission
pub mod Jobs
pub mod Runs
pub mod Balance
pub mod TakenBack
pub mod Recharged
pub mod ChargedTwice
pub mod Corrections
pub mod Change
