-- ===== src/OrderTracker.antt =====
-- binance_th/ordertracker.py: the local view of the open orders, and the loop that keeps it in step
-- with the user-data stream. The proofs are in the modules below.
pub mod View
pub mod Sync
pub mod Invariant
pub mod Convergence
mod Tests
