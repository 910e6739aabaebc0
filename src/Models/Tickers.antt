-- ===== src/Models/Tickers.antt =====
-- binance_th/models/market.py: tickers, reference prices and execution rules.
use binance_th.Prelude.{String, Option, none, some, List, [], ◌∷◌, ite}
use binance_th.Prelude.Int.{ℤ}
use binance_th.Prelude.Text.{String-discrete}
use binance_th.Models.Base.{Decimal}

-- 24-hour ticker statistics.
pub record Ticker24hr : Type 0 where
  pub symbol : String
  pub price_change : Decimal
  pub price_change_percent : Decimal
  pub weighted_avg_price : Decimal
  pub prev_close_price : Option Decimal
  pub last_price : Decimal
  pub last_qty : Option Decimal
  pub bid_price : Option Decimal
  pub bid_qty : Option Decimal
  pub ask_price : Option Decimal
  pub ask_qty : Option Decimal
  pub open_price : Decimal
  pub high_price : Decimal
  pub low_price : Decimal
  pub volume : Decimal
  pub quote_volume : Decimal
  pub open_time : ℤ
  pub close_time : ℤ
  pub first_id : ℤ
  pub last_id : ℤ
  pub count : ℤ

-- Symbol price ticker.
pub record PriceTicker : Type 0 where
  pub symbol : String
  pub price : Decimal

-- Symbol order book ticker.
pub record BookTicker : Type 0 where
  pub symbol : String
  pub bid_price : Decimal
  pub bid_qty : Decimal
  pub ask_price : Decimal
  pub ask_qty : Decimal

-- Reference price for a GLOBAL symbol.
pub record ReferencePrice : Type 0 where
  pub symbol : String
  pub reference_price : Decimal
  pub timestamp : ℤ

-- A single execution rule (e.g. PRICE_RANGE) for a symbol.
pub record ExecutionRule : Type 0 where
  pub rule_type : String
  pub bid_multiplier_up : Option Decimal
  pub bid_multiplier_down : Option Decimal
  pub ask_multiplier_up : Option Decimal
  pub ask_multiplier_down : Option Decimal

-- Execution rules for one symbol.
pub record SymbolExecutionRules : Type 0 where
  pub symbol : String
  pub rules : List ExecutionRule

-- Execution rules response.
pub record ExecutionRules : Type 0 where
  pub symbol_rules : List SymbolExecutionRules

find_rules : String → List SymbolExecutionRules → Option SymbolExecutionRules
find_rules name [] = none
find_rules name (r ∷ rs) = ite (String-discrete r.symbol name) (some r) (find_rules name rs)

-- `ExecutionRules.get_symbol`
unfoldable pub get_symbol : ExecutionRules → String → Option SymbolExecutionRules
unfolding find_rules
get_symbol rules name = find_rules name rules.symbol_rules
