-- ===== src/Orders.antt =====
-- binance_th/orders.py: the signed order client. The proofs are in the modules below.
pub mod Create
pub mod Safety
pub mod Outcome
pub mod Identity
pub mod Named
mod Tests
pub mod Cancel
pub mod Resolve
