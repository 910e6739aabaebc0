-- ===== src/OrderTracker/Tests.antt =====
-- The order tracker of binance_th/ordertracker.py on a few reports.
use binance_th.Prelude.{
  ℕ, zero, suc, ◌≡◌, ◌≢◌, refl, ◌⊎◌, inl, inr, false, true, Option, none, some, List, [], ◌∷◌,
  arith, All, ite,
}
use binance_th.Prelude.Int.{ℤ, pos, negsuc, ◌≤ℤ◌, ℤ-discrete}
use binance_th.Prelude.Dict.{lookup}
use binance_th.Models.Enums.{OrderStatus, new, partially_filled, filled, gtc, limit, buy}
use binance_th.Models.Orders.{Order, ExecutionReportEvent}
use binance_th.OrderTracker.View.{View, apply_order}
use binance_th.OrderTracker.Sync.{report, reconnected, other, run}
use binance_th.OrderTracker.Invariant.{EventHoldsOpen, run-HoldsOpen}
use binance_th.OrderTracker.Convergence.{
  after, lookup-apply_order, apply_order_twice, apply_order_mono, apply_order_comm,
  late_report_reopens,
}

abbrev order : OrderStatus → ℤ → Order
order status time = record {
  symbol = "BTCUSDT";
  order_id = pos 7;
  order_list_id = negsuc 0;
  client_order_id = "a";
  price = pos 100;
  orig_qty = pos 10;
  executed_qty = pos 0;
  cummulative_quote_qty = pos 0;
  status = status;
  time_in_force = gtc;
  order_type = limit;
  side = buy;
  stop_price = none;
  time = pos 1;
  update_time = time;
  is_working = true;
  orig_quote_order_qty = pos 0;
}

abbrev held : View
held = (pos 7, order new (pos 1)) ∷ []

abbrev message : ExecutionReportEvent
message = record {
  event_time = pos 5;
  symbol = "BTCUSDT";
  client_order_id = "a";
  side = "BUY";
  order_type = "LIMIT";
  time_in_force = "GTC";
  orig_qty = pos 10;
  price = pos 100;
  stop_price = none;
  current_order_status = "FILLED";
  order_id = pos 7;
  order_list_id = none;
  cumulative_filled_qty = pos 10;
  transaction_time = some (pos 5);
  is_on_book = none;
  order_creation_time = none;
  cumulative_quote_qty = none;
  quote_order_qty = none;
}

abbrev snapshots : ℕ → Option (List Order)
snapshots zero = some (order new (pos 1) ∷ order filled (pos 1) ∷ [])
snapshots (suc n) = none

run-HoldsOpen_example :
    All EventHoldsOpen (run snapshots (other ∷ report message ∷ reconnected ∷ []))
run-HoldsOpen_example = run-HoldsOpen snapshots (other ∷ report message ∷ reconnected ∷ [])

abbrev older : Order
older = order partially_filled (pos 3)

abbrev newer : Order
newer = order partially_filled (pos 4)

abbrev closing : Order
closing = order filled (pos 5)

lookup-apply_order_sample :
    lookup ℤ-discrete (pos 7) (apply_order closing held)
    ≡ ite
        (ℤ-discrete (pos 7) (pos 7))
        (after closing (lookup ℤ-discrete (pos 7) held))
        (lookup ℤ-discrete (pos 7) held)
lookup-apply_order_sample = lookup-apply_order closing held (pos 7)

apply_order_twice_sample :
    lookup ℤ-discrete (pos 7) (apply_order newer (apply_order newer held))
    ≡ lookup ℤ-discrete (pos 7) (apply_order newer held)
apply_order_twice_sample = apply_order_twice newer held (pos 7)

apply_order_mono_sample : pos 1 ≤ℤ pos 4
unfolding apply_order lookup ℤ-discrete binance_th.Prelude.Dict.insert
apply_order_mono_sample = apply_order_mono newer (order new (pos 1)) newer held (pos 7) refl refl

apply_order_comm_example :
    lookup ℤ-discrete (pos 7) (apply_order older (apply_order newer held))
    ≡ lookup ℤ-discrete (pos 7) (apply_order newer (apply_order older held))
apply_order_comm_example =
    apply_order_comm older newer held (pos 7) (inr ((λ e. ground arith), refl, refl))

late_report_reopens_sample :
    lookup ℤ-discrete (pos 7) (apply_order older (apply_order closing held)) ≡ some older
unfolding lookup ℤ-discrete
late_report_reopens_sample =
    late_report_reopens closing older held refl refl refl (ground arith) refl
