-- ===== src/Models.antt =====
-- binance_th/models: the typed payloads. Where a record leaves out fields that the modelled code never
-- reads, it says so.
pub mod Enums
pub mod Codes
pub mod Base
pub mod Market
pub mod Orders
pub mod Trades
pub mod Rows
pub mod Tickers
pub mod Depth
pub mod Account
pub mod Stream
pub mod UserData
