-- ===== src/Models/Orders.antt =====
-- binance_th/models/orders.py and userdata.py: orders, order requests with their validators, and
-- the execution report.
use mathlib.Core.Option
use binance_th.Prelude.Text.{strip}
use binance_th.Prelude.{
  String, Bool, true, false, Option, none, some, List, ◌&&◌, not, ltb, is_some, or_else,
}
use binance_th.Prelude.Int.{ℤ, pos, negsuc}
use binance_th.Models.Base.{Decimal}
use binance_th.Models.Enums.{
  OrderSide, OrderType, OrderStatus, TimeInForce, buy, limit, market, stop_loss, stop_loss_limit,
  take_profit, take_profit_limit, new, partially_filled, gtc, of_value, order_side_value,
  order_type_value, order_status_value, time_in_force_value, order_sides, order_types,
  order_statuses, times_in_force,
}
use binance_th.Errors.Exceptions.{foreign, Result, ok, raise_if, ◌>>◌}

pub record Order : Type 0 where
  pub symbol : String
  pub order_id : ℤ
  pub order_list_id : ℤ
  pub client_order_id : String
  pub price : Decimal
  pub orig_qty : Decimal
  pub executed_qty : Decimal
  pub cummulative_quote_qty : Decimal
  pub status : OrderStatus
  pub time_in_force : TimeInForce
  pub order_type : OrderType
  pub side : OrderSide
  pub stop_price : Option Decimal
  pub time : ℤ
  pub update_time : ℤ
  pub is_working : Bool
  pub orig_quote_order_qty : Decimal

abbrev pub active_status : OrderStatus → Bool
active_status new = true
active_status partially_filled = true
active_status _ = false

-- `Order.is_active`
unfoldable pub is_active : Order → Bool
is_active order = active_status order.status

pub record OrderRequest : Type 0 where
  pub symbol : String
  pub side : OrderSide
  pub order_type : OrderType
  pub time_in_force : Option TimeInForce
  pub quantity : Option Decimal
  pub quote_order_qty : Option Decimal
  pub price : Option Decimal
  pub new_client_order_id : Option String
  pub stop_price : Option Decimal
  pub recv_window : Option ℤ

abbrev pub is_limit_type : OrderType → Bool
is_limit_type limit = true
is_limit_type _ = false

abbrev pub is_market : OrderType → Bool
is_market market = true
is_market _ = false

abbrev pub is_stop : OrderType → Bool
is_stop stop_loss = true
is_stop stop_loss_limit = true
is_stop take_profit = true
is_stop take_profit_limit = true
is_stop _ = false

abbrev pub is_stop_limit : OrderType → Bool
is_stop_limit stop_loss_limit = true
is_stop_limit take_profit_limit = true
is_stop_limit _ = false

-- `le=60000` on `recvWindow`
abbrev pub window_fits : Option ℤ → Bool
window_fits none = true
window_fits (some (pos n)) = ltb n 60001
window_fits (some (negsuc n)) = true

-- The setting `str_strip_whitespace` of the request models, on the texts of a request.
abbrev pub stripped : OrderRequest → OrderRequest
stripped r = record r {
  symbol = strip r.symbol;
  new_client_order_id = Option.map strip r.new_client_order_id;
}

-- The construction of a request: its texts stripped, the field constraint, then
-- `validate_order_params`, each failure a validation error of pydantic.
unfoldable pub validate_order_params : OrderRequest → Result OrderRequest
unfolding strip
validate_order_params r = do
  raise_if (not (window_fits r.recv_window)) (foreign "recvWindow")
  raise_if (is_limit_type r.order_type && not (is_some r.price))
      (foreign "price is required for LIMIT orders")
  raise_if (is_limit_type r.order_type && not (is_some r.time_in_force))
      (foreign "timeInForce is required for LIMIT orders")
  raise_if (is_limit_type r.order_type && not (is_some r.quantity))
      (foreign "quantity is required for LIMIT orders")
  raise_if (is_market r.order_type && (not (is_some r.quantity) && not (is_some r.quote_order_qty)))
      (foreign "Either quantity or quoteOrderQty is required for MARKET orders")
  raise_if (is_stop r.order_type && not (is_some r.stop_price))
      (foreign "stopPrice is required for STOP orders")
  raise_if (is_stop_limit r.order_type && not (is_some r.price))
      (foreign "price is required for limit stop orders")
  raise_if (is_stop_limit r.order_type && not (is_some r.time_in_force))
      (foreign "timeInForce is required for limit stop orders")
  ok (stripped r)

-- A request that names an order, to query or to cancel it.
pub record OrderIdentifier : Type 0 where
  pub symbol : String
  pub order_id : Option ℤ
  pub orig_client_order_id : Option String
  pub recv_window : Option ℤ

-- The construction of both request models: the texts stripped, then `validate_order_identifier`.
unfoldable pub validate_order_identifier : OrderIdentifier → Result OrderIdentifier
unfolding strip
validate_order_identifier r = do
  raise_if (not (window_fits r.recv_window)) (foreign "recvWindow")
  raise_if (not (is_some r.order_id) && not (is_some r.orig_client_order_id))
      (foreign "Either orderId or origClientOrderId is required")
  ok (record r {
    symbol = strip r.symbol;
    orig_client_order_id = Option.map strip r.orig_client_order_id;
  })

-- The execution report, with the fields that an order is built from.
pub record ExecutionReportEvent : Type 0 where
  pub event_time : ℤ
  pub symbol : String
  pub client_order_id : String
  pub side : String
  pub order_type : String
  pub time_in_force : String
  pub orig_qty : Decimal
  pub price : Decimal
  pub stop_price : Option Decimal
  pub current_order_status : String
  pub order_id : ℤ
  pub order_list_id : Option ℤ
  pub cumulative_filled_qty : Decimal
  pub transaction_time : Option ℤ
  pub is_on_book : Option Bool
  pub order_creation_time : Option ℤ
  pub cumulative_quote_qty : Option Decimal
  pub quote_order_qty : Option Decimal

-- `_coerce`
abbrev pub coerce : {E : Type 0} → (E → String) → List E → String → E → E
coerce value members raw default = or_else (of_value value members raw) default

unfoldable pub order_from_execution_report : ExecutionReportEvent → Order
order_from_execution_report evt =
    let status = coerce order_status_value order_statuses evt.current_order_status new in
    record {
      symbol = evt.symbol;
      order_id = evt.order_id;
      order_list_id = or_else evt.order_list_id (negsuc 0);
      client_order_id = evt.client_order_id;
      price = evt.price;
      orig_qty = evt.orig_qty;
      executed_qty = evt.cumulative_filled_qty;
      cummulative_quote_qty = or_else evt.cumulative_quote_qty (pos 0);
      status = status;
      time_in_force = coerce time_in_force_value times_in_force evt.time_in_force gtc;
      order_type = coerce order_type_value order_types evt.order_type limit;
      side = coerce order_side_value order_sides evt.side buy;
      stop_price = evt.stop_price;
      time = or_else evt.order_creation_time evt.event_time;
      update_time = or_else evt.transaction_time evt.event_time;
      is_working = or_else evt.is_on_book (active_status status);
      orig_quote_order_qty = or_else evt.quote_order_qty (pos 0);
    }
