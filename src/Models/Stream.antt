-- ===== src/Models/Stream.antt =====
-- binance_th/models/stream.py: the events of the market streams. The depth event is in `Market`.
use binance_th.Prelude.{String, Bool, Option, List, [], ◌∷◌}
use binance_th.Prelude.Int.{ℤ}
use binance_th.Prelude.Json.{Json, Items, Fields, array, nil, item}
use binance_th.Errors.Exceptions.{Result, ok, ◌>>=◌}
use binance_th.Models.Base.{Decimal}
use binance_th.Models.Market.{OrderBookEntry}
use binance_th.Models.Depth.{from_list}

-- Combined-stream envelope ``{"stream": ..., "data": ...}`` (verified 2026-07-09).
pub record StreamMessage : Type 0 where
  pub stream : String
  pub body : Fields

-- Single trade (``e=trade``). ``M`` (is-best-match) is GLOBAL-only.
pub record TradeEvent : Type 0 where
  pub event_type : String
  pub event_time : ℤ
  pub transaction_time : ℤ
  pub symbol : String
  pub trade_id : ℤ
  pub price : Decimal
  pub quantity : Decimal
  pub is_buyer_maker : Bool
  pub is_best_match : Option Bool

-- Aggregate trade (``e=aggTrade``). ``M`` (is-best-match) is GLOBAL-only.
pub record AggTradeEvent : Type 0 where
  pub event_type : String
  pub event_time : ℤ
  pub transaction_time : ℤ
  pub symbol : String
  pub agg_trade_id : ℤ
  pub price : Decimal
  pub quantity : Decimal
  pub first_trade_id : ℤ
  pub last_trade_id : ℤ
  pub is_buyer_maker : Bool
  pub is_best_match : Option Bool

-- Nested candlestick payload (the ``k`` field of a kline event).
pub record KlineData : Type 0 where
  pub start_time : ℤ
  pub close_time : ℤ
  pub symbol : String
  pub interval : String
  pub first_trade_id : ℤ
  pub last_trade_id : ℤ
  pub open_price : Decimal
  pub close_price : Decimal
  pub high_price : Decimal
  pub low_price : Decimal
  pub volume : Decimal
  pub trade_count : ℤ
  pub is_closed : Bool
  pub quote_volume : Decimal
  pub taker_buy_base_volume : Decimal
  pub taker_buy_quote_volume : Decimal
  pub ignore : Option String

-- Candlestick event (``e=kline``); identical shape across GLOBAL and SITE.
pub record KlineEvent : Type 0 where
  pub event_type : String
  pub event_time : ℤ
  pub symbol : String
  pub kline : KlineData

-- Best bid/ask (``bookTicker``). SITE adds ``e`` / ``E`` / ``T``; GLOBAL omits them.
pub record BookTickerEvent : Type 0 where
  pub update_id : ℤ
  pub symbol : String
  pub bid_price : Decimal
  pub bid_qty : Decimal
  pub ask_price : Decimal
  pub ask_qty : Decimal
  pub event_type : Option String
  pub event_time : Option ℤ
  pub transaction_time : Option ℤ

-- Rolling 24h ticker (``e=24hrTicker``).
pub record TickerEvent : Type 0 where
  pub event_type : String
  pub event_time : ℤ
  pub symbol : String
  pub price_change : Option Decimal
  pub price_change_percent : Option Decimal
  pub weighted_avg_price : Option Decimal
  pub prev_close_price : Option Decimal
  pub last_price : Option Decimal
  pub last_qty : Option Decimal
  pub best_bid_price : Option Decimal
  pub best_bid_qty : Option Decimal
  pub best_ask_price : Option Decimal
  pub best_ask_qty : Option Decimal
  pub open_price : Option Decimal
  pub high_price : Option Decimal
  pub low_price : Option Decimal
  pub volume : Option Decimal
  pub quote_volume : Option Decimal
  pub open_time : Option ℤ
  pub close_time : Option ℤ
  pub first_trade_id : Option ℤ
  pub last_trade_id : Option ℤ
  pub trade_count : Option ℤ

-- What `_parse_levels` makes of one level.
pub data Level : Type 0 where
  entry : OrderBookEntry → Level
  raw : Json → Level

-- What the validator hands on: the levels of a list, or the value as it is.
pub data Levels : Type 0 where
  levels : List Level → Levels
  other : Json → Levels

module _ (decimal_of : Json → Result Decimal) where
  abbrev parse_level : Json → Result Level
  parse_level (array is) = from_list decimal_of (array is) >>= λ e. ok (entry e)
  parse_level j = ok (raw j)

  parse_items : Items → Result (List Level)
  parse_items nil = ok []
  parse_items (item j is) =
      let rest = parse_items is in parse_level j >>= λ l. rest >>= λ ls. ok (l ∷ ls)

  -- `_parse_levels`
  unfoldable pub parse_levels : Json → Result Levels
  unfolding parse_items
  parse_levels (array is) = parse_items is >>= λ ls. ok (levels ls)
  parse_levels j = ok (other j)
