-- ===== src/Models/Market.antt =====
-- binance_th/models/market.py and stream.py: the payloads that feed the order book.
use binance_th.Prelude.{List}
use binance_th.Prelude.Int.{ℤ}
use binance_th.Models.Base.{Decimal}

pub record OrderBookEntry : Type 0 where
  pub price : Decimal
  pub quantity : Decimal

-- The REST depth snapshot.
pub record OrderBook : Type 0 where
  pub last_update_id : ℤ
  pub bids : List OrderBookEntry
  pub asks : List OrderBookEntry

-- One diff-depth message, `U` to `u`.
pub record DepthUpdateEvent : Type 0 where
  pub first_update_id : ℤ
  pub final_update_id : ℤ
  pub bids : List OrderBookEntry
  pub asks : List OrderBookEntry
