-- ===== src/PaymentProofs.antt =====
-- Receipts of payments: apps/api/src/payment-proofs.
pub mod Review
pub mod Once
