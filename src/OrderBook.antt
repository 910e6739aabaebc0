-- ===== src/OrderBook.antt =====
-- binance_th/orderbook.py: the local order book, the loop that keeps it in step with the depth
-- stream, and the object that runs the loop. The proofs are in the modules below.
pub mod Local
pub mod Sync
pub mod Sides
pub mod Truth
pub mod Best
pub mod Top
mod Tests
