-- ===== src/Models/Trades.antt =====
-- binance_th/models/market.py: trades and candlesticks. An item of a list reads as `data[n]` does;
-- `int` and `Decimal` are Python's, and may raise.
use Prim.Native.String as S
use binance_th.Prelude.{ℕ, zero, suc, String, Bool, Option}
use binance_th.Prelude.Int.{ℤ}
use binance_th.Prelude.Json.{Json, Items, null, bool, int, real, str, array, object, nil, item}
use binance_th.Errors.Exceptions.{foreign, Result, ok, raise, ◌>>=◌}
use binance_th.Models.Base.{Decimal}

-- Recent trade information.
pub record Trade : Type 0 where
  pub id : ℤ
  pub price : Decimal
  pub qty : Decimal
  pub quote_qty : Option Decimal
  pub time : ℤ
  pub is_buyer_maker : Bool
  pub is_best_match : Bool

-- Compressed aggregate trade information.
pub record AggregateTrade : Type 0 where
  pub agg_trade_id : ℤ
  pub price : Decimal
  pub quantity : Decimal
  pub first_trade_id : ℤ
  pub last_trade_id : ℤ
  pub timestamp : ℤ
  pub is_buyer_maker : Bool

-- Kline/candlestick data.
pub record Kline : Type 0 where
  pub open_time : ℤ
  pub open_price : Decimal
  pub high_price : Decimal
  pub low_price : Decimal
  pub close_price : Decimal
  pub volume : Decimal
  pub close_time : ℤ
  pub quote_volume : Decimal
  pub trade_count : ℤ
  pub taker_buy_base_volume : Decimal
  pub taker_buy_quote_volume : Decimal

abbrev nth : ℕ → Items → Result Json
nth n nil = raise (foreign "IndexError")
nth zero (item j is) = ok j
nth (suc n) (item j is) = nth n is

abbrev nth_char : ℕ → String → Result Json
nth_char n S.[] = raise (foreign "IndexError")
nth_char zero (S.◌∷◌ c s) = ok (str (S.◌∷◌ c ""))
nth_char (suc n) (S.◌∷◌ c s) = nth_char n s

-- `data[n]`
abbrev pub subscript : ℕ → Json → Result Json
subscript n (array is) = nth n is
subscript n (object fs) = raise (foreign "KeyError")
subscript n (str s) = nth_char n s
subscript n null = raise (foreign "TypeError")
subscript n (bool b) = raise (foreign "TypeError")
subscript n (int i) = raise (foreign "TypeError")
subscript n (real s) = raise (foreign "TypeError")

module _ (int_of : Json → Result ℤ) (decimal_of_str : Json → Result Decimal) where
  abbrev int_at : Json → ℕ → Result ℤ
  int_at row n = subscript n row >>= int_of

  abbrev decimal_at : Json → ℕ → Result Decimal
  decimal_at row n = subscript n row >>= decimal_of_str

  -- `Kline.from_list`
  unfoldable pub from_list : Json → Result Kline
  from_list row = do
    open_time ← int_at row 0
    open_price ← decimal_at row 1
    high_price ← decimal_at row 2
    low_price ← decimal_at row 3
    close_price ← decimal_at row 4
    volume ← decimal_at row 5
    close_time ← int_at row 6
    quote_volume ← decimal_at row 7
    trade_count ← int_at row 8
    taker_buy_base_volume ← decimal_at row 9
    taker_buy_quote_volume ← decimal_at row 10
    ok (record {
      open_time = open_time;
      open_price = open_price;
      high_price = high_price;
      low_price = low_price;
      close_price = close_price;
      volume = volume;
      close_time = close_time;
      quote_volume = quote_volume;
      trade_count = trade_count;
      taker_buy_base_volume = taker_buy_base_volume;
      taker_buy_quote_volume = taker_buy_quote_volume;
    })
