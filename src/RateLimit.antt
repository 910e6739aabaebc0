-- ===== src/RateLimit.antt =====
-- binance_th/ratelimit.py: the dual-window rate limiter. The proofs are in the modules below.
pub mod Window
pub mod Limiter
pub mod Headers
pub mod Pacing
pub mod Counting
pub mod InOrder
pub mod History
pub mod Reconcile
mod Tests
