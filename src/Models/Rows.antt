-- ===== src/Models/Rows.antt =====
-- The rows that `Kline.from_list` of binance_th/models/market.py reads.
use binance_th.Prelude.{◌≡◌}
use binance_th.Prelude.Int.{ℤ}
use binance_th.Prelude.Json.{Json, Items, int, array, item}
use binance_th.Errors.Exceptions.{Result, ok}
use binance_th.Models.Base.{Decimal}
use binance_th.Models.Trades.{Kline, from_list}

-- A candlestick as the API sends it, with whatever follows the eleventh cell.
abbrev pub row_of : (Decimal → Json) → Items → Kline → Json
row_of shown rest k = array (
    item (int k.open_time) (
      item (shown k.open_price) (
        item (shown k.high_price) (
          item (shown k.low_price) (
            item (shown k.close_price) (
              item (shown k.volume) (
                item (int k.close_time) (
                  item (shown k.quote_volume) (
                    item (int k.trade_count) (
                      item (shown k.taker_buy_base_volume)
                        (item (shown k.taker_buy_quote_volume) rest)))))))))))

-- Where `int` keeps an integer and `Decimal` reads the text that the exchange writes for it, the
-- candlestick read from a row is the one that was written there.
pub from_list-row_of :
    (int_of : Json → Result ℤ) (decimal_of : Json → Result Decimal) (shown : Decimal → Json)
    (rest : Items) (k : Kline)
    → ((n : ℤ) → int_of (int n) ≡ ok n)
    → ((d : Decimal) → decimal_of (shown d) ≡ ok d)
    → from_list int_of decimal_of (row_of shown rest k) ≡ ok k
unfolding from_list
from_list-row_of int_of decimal_of shown rest k ints decimals = simp (ints, decimals)
