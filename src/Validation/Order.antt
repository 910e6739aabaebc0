-- ===== src/Validation/Order.antt =====
-- `validate_order` of binance_th/validation.py.
use binance_th.Prelude.{ℕ, String, Bool, false, Option, none, some, ◌+◌, ◌*◌, ◌==◌, if◌then◌else◌}
use binance_th.Prelude.Int.{pos, negsuc, ltb_ℤ, leb_ℤ, sub_ℕ}
use binance_th.Models.Base.{Decimal, SymbolFilter, SymbolInfo, get_filter}
use binance_th.Models.Enums.{price_filter, lot_size, market_lot_size, min_notional}
use binance_th.Models.Orders.{OrderRequest, is_market}
use binance_th.Errors.Exceptions.{validation_error, Result, ok, raise_if, ◌>>◌}
use binance_th.Validation.Rounding.{snap_price, rounded, magnitude}

-- The lot filter of the order: that of market orders first, where the order is one.
unfoldable pub lot_filter : OrderRequest → SymbolInfo → Option SymbolFilter
lot_filter r info =
    elim (if is_market r.order_type then get_filter info market_lot_size else none) [
      | some f ↦ some f
      | none ↦ get_filter info lot_size
    ]

-- `snap(value, filter.step)` where both are there.
abbrev pub snap_by :
    (SymbolFilter → Option Decimal) → Option SymbolFilter → Option Decimal → Option Decimal
snap_by step none value = value
snap_by step (some f) none = none
snap_by step (some f) (some v) = some (snap_price v (step f))

-- `bound and test`: a bound that is 0 or missing limits nothing.
abbrev pub bounded : (Decimal → Bool) → Option Decimal → Bool
bounded test none = false
bounded test (some b) = if magnitude b == 0 then false else test b

abbrev pub bound_of : (SymbolFilter → Option Decimal) → Option SymbolFilter → Option Decimal
bound_of field none = none
bound_of field (some f) = field f

-- The checks that price and quantity share: positive, not below the one bound, not above the other.
unfoldable pub check_range :
    String
    → String
    → String
    → String
    → Option Decimal
    → Option Decimal
    → Option Decimal
    → Result (Unit {0})
check_range name positive below above low high none = ok tt
check_range name positive below above low high (some v) = do
  raise_if (leb_ℤ v (pos 0)) (validation_error name positive)
  raise_if (bounded (λ b. ltb_ℤ v b) low) (validation_error name below)
  raise_if (bounded (λ b. ltb_ℤ b v) high) (validation_error name above)

-- A product of decimals, counted in units of the square of the unit.
abbrev pub product : Decimal → Decimal → Decimal
product (pos a) (pos b) = pos (rounded (a * b))
product (pos a) (negsuc b) = sub_ℕ 0 (rounded (a * (b + 1)))
product (negsuc a) (pos b) = sub_ℕ 0 (rounded ((a + 1) * b))
product (negsuc a) (negsuc b) = pos (rounded ((a + 1) * (b + 1)))

-- A decimal in units of the square of the unit, of which `unit` make one unit.
abbrev pub scaled : ℕ → Decimal → Decimal
scaled unit (pos a) = pos (a * unit)
scaled unit (negsuc a) = sub_ℕ 0 ((a + 1) * unit)

-- The value that MIN_NOTIONAL is compared with.
unfoldable pub notional : ℕ → Option Decimal → Option Decimal → Option Decimal → Option Decimal
notional unit (some q) price quantity = some (scaled unit q)
notional unit none (some p) (some q) = some (product p q)
notional unit none (some p) none = none
notional unit none none quantity = none

unfoldable pub check_notional : ℕ → Option Decimal → Option Decimal → Result (Unit {0})
check_notional unit value none = ok tt
check_notional unit none (some b) = ok tt
check_notional unit (some v) (some b) =
    raise_if (if magnitude b == 0 then false else ltb_ℤ v (scaled unit b))
      (validation_error "notional" "notional below minNotional")

-- `_check_price_range` enforces nothing, and is left out with its argument. `unit` is the number of
-- units in 1: a power of ten.
abbrev pub snapped : OrderRequest → SymbolInfo → OrderRequest
snapped r info = record r {
  price = snap_by (λ f. f.tick_size) (get_filter info price_filter) r.price;
  stop_price = snap_by (λ f. f.tick_size) (get_filter info price_filter) r.stop_price;
  quantity = snap_by (λ f. f.step_size) (lot_filter r info) r.quantity;
}

unfoldable pub validate_order : ℕ → OrderRequest → SymbolInfo → Result OrderRequest
unfolding check_range notional check_notional lot_filter
validate_order unit r info = do
  let prices = get_filter info price_filter
  let lots = lot_filter r info
  let s = snapped r info
  check_range "price" "price must be positive" "price below minPrice" "price above maxPrice"
      (bound_of (λ f. f.min_price) prices) (bound_of (λ f. f.max_price) prices) s.price
  check_range "quantity" "quantity snapped to zero (below stepSize)" "quantity below minQty"
      "quantity above maxQty" (bound_of (λ f. f.min_qty) lots) (bound_of (λ f. f.max_qty) lots)
      s.quantity
  check_notional unit (notional unit s.quote_order_qty s.price s.quantity)
      (bound_of (λ f. f.min_notional) (get_filter info min_notional))
  ok s
