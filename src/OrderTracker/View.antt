-- ===== src/OrderTracker/View.antt =====
-- `LocalOrderView` of binance_th/ordertracker.py.
use binance_th.Prelude.{Bool, true, false, Option, none, some, List, [], ◌∷◌, if◌then◌else◌}
use binance_th.Prelude.Int.{ℤ, ltb_ℤ, ℤ-discrete}
use binance_th.Prelude.Dict.{Dict, values, lookup, insert, erase}
use binance_th.Models.Enums.{OrderStatus, filled, canceled, rejected, expired}
use binance_th.Models.Orders.{Order, is_active, ExecutionReportEvent, order_from_execution_report}

abbrev pub View : Type 0
View = Dict ℤ Order

-- `_TERMINAL`
abbrev pub is_terminal : OrderStatus → Bool
is_terminal filled = true
is_terminal canceled = true
is_terminal rejected = true
is_terminal expired = true
is_terminal _ = false

-- `{order.order_id: order for order in orders if order.is_active}`, onto a dict.
unfoldable pub seed_onto : View → List Order → View
seed_onto view [] = view
seed_onto view (order ∷ orders) =
    seed_onto (if is_active order then insert ℤ-discrete order.order_id order view else view) orders

unfoldable pub seed : List Order → View
unfolding seed_onto
seed orders = seed_onto [] orders

-- `prev is not None and order.update_time < prev.update_time`
abbrev pub is_stale : Option Order → Order → Bool
is_stale none order = false
is_stale (some prev) order = ltb_ℤ order.update_time prev.update_time

unfoldable pub apply_order : Order → View → View
apply_order order view =
    if is_stale (lookup ℤ-discrete order.order_id view) order
    then view
    else if is_terminal order.status
    then erase ℤ-discrete order.order_id view
    else insert ℤ-discrete order.order_id order view

unfoldable pub apply : ExecutionReportEvent → View → View
unfolding apply_order
apply event view = apply_order (order_from_execution_report event) view

-- `open()`
unfoldable pub open_orders : View → List Order
open_orders = values
