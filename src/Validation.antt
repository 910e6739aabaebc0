-- ===== src/Validation.antt =====
-- binance_th/validation.py: pre-trade validation of an order against the filters of its symbol.
pub mod Rounding
pub mod Order
pub mod Exact
pub mod Accepts
mod Tests
