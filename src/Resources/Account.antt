-- ===== src/Resources/Account.antt =====
-- The calls of `AccountClient` of binance_th/account.py, and of `OrdersClient.open_orders` of
-- binance_th/orders.py.
use Prim.Native.String as S
use binance_th.Prelude.{ℕ, String, true, Option, none, some, [], ◌∷◌}
use binance_th.Prelude.Int.{ℤ}
use binance_th.Transport.Pipeline.{Call}
use binance_th.Resources.{get_call, optional_text, optional_int}

abbrev pub account_call : Call
account_call = get_call "/api/v1/accountV2" [] true 10

abbrev pub trade_fees_call : Option String → Call
trade_fees_call symbol = get_call "/api/v1/asset/tradeFee" (optional_text "symbol" symbol []) true 1

abbrev pub user_trades_call : String → Option ℤ → Option ℤ → Option ℤ → Call
user_trades_call symbol limit start_time end_time =
    get_call "/api/v1/userTrades"
      (("symbol", symbol)
        ∷ optional_int "limit" limit
            (optional_int "startTime" start_time (optional_int "endTime" end_time [])))
      true 10

-- `3 if symbol else 40`
abbrev pub open_orders_weight : Option String → ℕ
open_orders_weight none = 40
open_orders_weight (some S.[]) = 40
open_orders_weight (some (S.◌∷◌ c s)) = 3

abbrev pub open_orders_call : Option String → Call
open_orders_call symbol =
    get_call "/api/v1/openOrders" (optional_text "symbol" symbol []) true
      (open_orders_weight symbol)
