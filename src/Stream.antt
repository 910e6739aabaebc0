-- ===== src/Stream.antt =====
-- binance_th/stream.py: the subscriptions of the market streams.
pub mod Queue
mod Tests
pub mod Subscription
pub mod Connection
pub mod Supervisor
mod Table
pub mod Listed
pub mod Attached
pub mod Delivery
mod Fresh
mod Heard
mod Phases
pub mod Reconnect
mod Recovery
mod Served
mod InStep
mod Router
pub mod Client
mod Routing
pub mod Frames
mod Agree
mod Linked
