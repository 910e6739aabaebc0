-- ===== src/Validation/Tests.antt =====
-- `validate_order` of binance_th/validation.py on one symbol. A unit is 10 ^ -8.
use binance_th.Prelude.{ℕ, ◌/◌, ◌*◌, ◌+◌, ◌≤◌, ◌<◌, ◌≡◌, refl, ◌↔◌, none, some, [], ◌∷◌, arith}
use binance_th.Prelude.Int.{pos}
use binance_th.Models.Base.{SymbolFilter, SymbolInfo, get_filter}
use binance_th.Models.Enums.{FilterType, price_filter, lot_size, min_notional, sell, limit, gtc}
use binance_th.Models.Orders.{OrderRequest}
use binance_th.Errors.Exceptions.{ok}
use binance_th.Validation.Rounding.{digits, snap_magnitude}
use binance_th.Validation.Order.{snapped, validate_order}
use binance_th.Validation.Exact.{InPrecision, snap_magnitude_exact, snap_magnitude_twice}
use binance_th.Validation.Accepts.{MeetsFilters, validate_order_iff}

abbrev unit : ℕ
unit = 100_000_000

abbrev empty_filter : FilterType → SymbolFilter
empty_filter t = record {
  filter_type = t;
  min_price = none;
  max_price = none;
  tick_size = none;
  min_qty = none;
  max_qty = none;
  step_size = none;
  min_notional = none;
}

abbrev symbol_info : SymbolInfo
symbol_info = record {
  symbol = "BTCUSDT";
  filters =
      record (empty_filter price_filter) {
        min_price = some (pos 1_000_000);
        tick_size = some (pos 1_000_000);
      }
      ∷ record (empty_filter lot_size) {
        min_qty = some (pos 1000);
        max_qty = some (pos 900_000_000_000);
        step_size = some (pos 1000);
      }
      ∷ record (empty_filter min_notional) { min_notional = some (pos 1_000_000_000) }
      ∷ [];
}

-- 0.50000123 at 3000.019
abbrev request : OrderRequest
request = record {
  symbol = "BTCUSDT";
  side = sell;
  order_type = limit;
  time_in_force = some gtc;
  quantity = some (pos 50_000_123);
  quote_order_qty = none;
  price = some (pos 300_001_900_000);
  new_client_order_id = some "x";
  stop_price = none;
  recv_window = none;
}

validate_order_iff_example :
    (validate_order unit request symbol_info ≡ ok (snapped request symbol_info)) ↔ (
      (snapped request symbol_info ≡ snapped request symbol_info)
      × MeetsFilters unit symbol_info request (snapped request symbol_info))
validate_order_iff_example =
    validate_order_iff unit request (snapped request symbol_info) symbol_info

price-InPrecision : InPrecision 300_001_900_000 1_000_000
unfolding digits
price-InPrecision = record {
  quotient_fits = omega arith;
  step_fits = omega arith;
  multiple_fits = omega arith;
}

snap_magnitude_exact_example :
    (snap_magnitude 300_001_900_000 1_000_000 ≡ 300_001_900_000 / 1_000_000 * 1_000_000)
    × (snap_magnitude 300_001_900_000 1_000_000 ≤ 300_001_900_000)
    × (300_001_900_000 < snap_magnitude 300_001_900_000 1_000_000 + 1_000_000)
snap_magnitude_exact_example =
    snap_magnitude_exact 300_001_900_000 1_000_000 (omega arith) price-InPrecision

snap_magnitude_twice_sample :
    snap_magnitude (snap_magnitude 300_001_900_000 1_000_000) 1_000_000
    ≡ snap_magnitude 300_001_900_000 1_000_000
snap_magnitude_twice_sample =
    snap_magnitude_twice 300_001_900_000 1_000_000 (omega arith) price-InPrecision

-- The order is accepted with its price and quantity snapped down.
validate_order_runs :
    validate_order unit request symbol_info
    ≡ ok (record request { quantity = some (pos 50_000_000); price = some (pos 300_001_000_000) })
unfolding validate_order get_filter binance_th.Models.Enums.FilterType-discrete
    binance_th.Validation.Rounding.snap_price
validate_order_runs = refl
