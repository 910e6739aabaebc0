-- ===== src/UserStream.antt =====
-- binance_th/listenkey.py and binance_th/userstream.py: the user-data stream.
pub mod ListenKey
mod Hub
mod Supervisor
mod Reports
mod Expiry
mod Tests
mod Tracking
mod Watch
mod WatchTests
mod Items
pub mod Lifecycle
mod Ended
mod EndTests
