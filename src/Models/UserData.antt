-- ===== src/Models/UserData.antt =====
-- binance_th/models/userdata.py: the events of the user-data stream besides the execution report,
-- which is in `Orders`.
use binance_th.Prelude.{String, Option, List}
use binance_th.Prelude.Int.{ℤ}
use binance_th.Models.Base.{Decimal}

-- One changed balance inside an `outboundAccountPosition` event.
pub record AccountBalanceDelta : Type 0 where
  pub asset : String
  pub free : Decimal
  pub locked : Decimal

-- Account balances after any change.
pub record OutboundAccountPositionEvent : Type 0 where
  pub event_type : String
  pub event_time : ℤ
  pub last_update_time : ℤ
  pub balances : List AccountBalanceDelta

-- The change of a balance by a deposit, a withdrawal or a transfer.
pub record BalanceUpdateEvent : Type 0 where
  pub event_type : String
  pub event_time : ℤ
  pub asset : String
  pub balance_delta : Decimal
  pub clear_time : Option ℤ

-- The listen key has expired.
pub record ListenKeyExpiredEvent : Type 0 where
  pub event_type : String
  pub event_time : ℤ
  pub listen_key : Option String
