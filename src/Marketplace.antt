-- ===== src/Marketplace.antt =====
-- The handlers and the jobs together: the invariant of the database, and the state machine of requests.
pub mod Invariant
pub mod Moves
pub mod CourierSide
pub mod MerchantSide
pub mod WorkerSide
pub mod Completion
pub mod Finalize
pub mod DisputeRows
pub mod DisputeSide
pub mod Resolving
pub mod ResolveSide
pub mod Evolution
pub mod Turns
pub mod Ends
pub mod Reach
pub mod Runs
pub mod Guarantees
pub mod Races
