-- ===== src/Worker.antt =====
-- The background jobs: apps/worker/src.
pub mod Expire
pub mod Complete
pub mod Checked
pub mod Agreement
pub mod Sweep
pub mod Settlements
