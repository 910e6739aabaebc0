-- ===== src/Transport.antt =====
-- binance_th/transport.py: the request pipeline. The proofs are in the modules below.
pub mod Reply
pub mod Pipeline
pub mod Keeps
pub mod Paced
pub mod Sent
pub mod Once
pub mod Raised
pub mod Sample
pub mod Wiring
mod PacedTests
mod Tests
