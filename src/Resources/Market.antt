-- ===== src/Resources/Market.antt =====
-- The calls of `MarketClient` of binance_th/market.py, and of the small reads of
-- binance_th/client.py.
use binance_th.Prelude.{ℕ, String, false, Option, none, some, [], ◌∷◌, if◌then◌else◌}
use binance_th.Prelude.Int.{ℤ, pos, ltb_ℤ}
use binance_th.Transport.Pipeline.{Call}
use binance_th.Resources.{get_call, optional_text, optional_int}

abbrev pub depth_weight : Option ℤ → ℕ
depth_weight none = 1
depth_weight (some limit) =
    if ltb_ℤ limit (pos 101)
    then 1
    else if ltb_ℤ limit (pos 501)
    then 5
    else if ltb_ℤ limit (pos 1001)
    then 10
    else 50

abbrev pub depth_call : String → Option ℤ → Call
depth_call symbol limit =
    get_call "/api/v1/depth" (("symbol", symbol) ∷ optional_int "limit" limit []) false
      (depth_weight limit)

abbrev pub trades_call : String → Option ℤ → Call
trades_call symbol limit =
    get_call "/api/v1/trades" (("symbol", symbol) ∷ optional_int "limit" limit []) false 1

abbrev pub agg_trades_call : String → Option ℤ → Call
agg_trades_call symbol limit =
    get_call "/api/v1/aggTrades" (("symbol", symbol) ∷ optional_int "limit" limit []) false 1

abbrev pub klines_call : String → String → Option ℤ → Option ℤ → Option ℤ → Call
klines_call symbol interval limit start_time end_time =
    get_call "/api/v1/klines"
      (("symbol", symbol)
        ∷ ("interval", interval)
        ∷ optional_int "limit" limit
            (optional_int "startTime" start_time (optional_int "endTime" end_time [])))
      false 1

abbrev pub ticker_24hr_call : String → Call
ticker_24hr_call symbol = get_call "/api/v1/ticker/24hr" (("symbol", symbol) ∷ []) false 1

abbrev pub ticker_price_call : String → Call
ticker_price_call symbol = get_call "/api/v1/ticker/price" (("symbol", symbol) ∷ []) false 1

abbrev pub book_ticker_call : String → Call
book_ticker_call symbol = get_call "/api/v1/ticker/bookTicker" (("symbol", symbol) ∷ []) false 1

abbrev pub reference_price_call : String → Call
reference_price_call symbol = get_call "/api/v1/referencePrice" (("symbol", symbol) ∷ []) false 1

abbrev pub execution_rules_call : Call
execution_rules_call = get_call "/api/v1/executionRules" [] false 2

abbrev pub symbol_types_call : Option String → Call
symbol_types_call symbol = get_call "/api/v1/symbolType" (optional_text "symbol" symbol []) false 1

-- A public read.
pub data MarketRead : Type 0 where
  depth trades agg_trades : String → Option ℤ → MarketRead
  klines : String → String → Option ℤ → Option ℤ → Option ℤ → MarketRead
  ticker_24hr ticker_price book_ticker reference_price : String → MarketRead
  execution_rules : MarketRead
  symbol_types_of : Option String → MarketRead

abbrev pub market_call : MarketRead → Call
market_call (depth s l) = depth_call s l
market_call (trades s l) = trades_call s l
market_call (agg_trades s l) = agg_trades_call s l
market_call (klines s i l from to) = klines_call s i l from to
market_call (ticker_24hr s) = ticker_24hr_call s
market_call (ticker_price s) = ticker_price_call s
market_call (book_ticker s) = book_ticker_call s
market_call (reference_price s) = reference_price_call s
market_call execution_rules = execution_rules_call
market_call (symbol_types_of s) = symbol_types_call s
