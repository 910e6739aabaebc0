-- ===== src/Validation/Accepts.antt =====
-- Which orders `validate_order` of binance_th/validation.py accepts.
use binance_th.Prelude.{ℕ, String, ◌≡◌, ◌↔◌, ◌⊎◌, refl, Option, none, some, arith}
use binance_th.Prelude.Int.{pos, ◌≤ℤ◌, ◌<ℤ◌}
use binance_th.Models.Base.{Decimal, SymbolInfo, get_filter}
use binance_th.Models.Enums.{price_filter, min_notional}
use binance_th.Models.Orders.{OrderRequest}
use binance_th.Errors.Exceptions.{Result, ok, raise, ◌>>◌}
use binance_th.Validation.Rounding.{magnitude}
use binance_th.Validation.Order.{
  lot_filter, bound_of, check_range, check_notional, notional, scaled, snapped, validate_order,
}

-- A bound limits a value unless it is missing or 0.
abbrev pub AtLeast : Option Decimal → Decimal → Type 0
AtLeast none v = Unit
AtLeast (some b) v = (magnitude b ≡ 0) ⊎ (b ≤ℤ v)

abbrev pub AtMost : Option Decimal → Decimal → Type 0
AtMost none v = Unit
AtMost (some b) v = (magnitude b ≡ 0) ⊎ (v ≤ℤ b)

-- A value that is there is positive and within its bounds.
abbrev pub InRange : Option Decimal → Option Decimal → Option Decimal → Type 0
InRange low high none = Unit
InRange low high (some v) = (pos 0 <ℤ v) × AtLeast low v × AtMost high v

-- The notional, if there is one, reaches the minimum, if there is one that is not 0.
abbrev pub Reaches : ℕ → Option Decimal → Option Decimal → Type 0
Reaches unit none b = Unit
Reaches unit (some v) none = Unit
Reaches unit (some v) (some b) = (magnitude b ≡ 0) ⊎ (scaled unit b ≤ℤ v)

check_range_iff :
    (name positive below above : String) (low high value : Option Decimal)
    → (check_range name positive below above low high value ≡ ok tt) ↔ InRange low high value
unfolding check_range
check_range_iff name positive below above low high none = (λ h. tt, λ h. refl)
check_range_iff name positive below above none none (some v) =
    (λ h. ground arith, λ h. ground arith)
check_range_iff name positive below above none (some b) (some v) =
    (λ h. ground arith, λ h. ground arith)
check_range_iff name positive below above (some a) none (some v) =
    (λ h. ground arith, λ h. ground arith)
check_range_iff name positive below above (some a) (some b) (some v) =
    (λ h. ground arith, λ h. ground arith)

check_notional_iff :
    (unit : ℕ) (value bound : Option Decimal)
    → (check_notional unit value bound ≡ ok tt) ↔ Reaches unit value bound
unfolding check_notional
check_notional_iff unit none none = (λ h. tt, λ h. refl)
check_notional_iff unit none (some b) = (λ h. tt, λ h. refl)
check_notional_iff unit (some v) none = (λ h. tt, λ h. refl)
check_notional_iff unit (some v) (some b) = (λ h. ground arith, λ h. ground arith)

-- Three checks in a row succeed exactly if each does.
checks_iff :
    (first second third : Result (Unit {0})) (s r : OrderRequest)
    → ((first >> (second >> (third >> ok s))) ≡ ok r)
      ↔ ((s ≡ r) × (first ≡ ok tt) × (second ≡ ok tt) × (third ≡ ok tt))
checks_iff (ok x) (ok y) (ok z) s r = (λ h. (ground arith, refl, refl, refl), λ h. ground arith)
checks_iff (ok x) (ok y) (raise e) s r = (λ h. ground arith, λ h. ground arith)
checks_iff (ok x) (raise e) third s r = (λ h. ground arith, λ h. ground arith)
checks_iff (raise e) second third s r = (λ h. ground arith, λ h. ground arith)

-- What the filters of a symbol ask of an order.
abbrev pub MeetsFilters : ℕ → SymbolInfo → OrderRequest → OrderRequest → Type 0
MeetsFilters unit info original r =
    InRange (bound_of (λ f. f.min_price) (get_filter info price_filter))
      (bound_of (λ f. f.max_price) (get_filter info price_filter)) r.price
    × InRange (bound_of (λ f. f.min_qty) (lot_filter original info))
        (bound_of (λ f. f.max_qty) (lot_filter original info)) r.quantity
    × Reaches unit (notional unit r.quote_order_qty r.price r.quantity)
        (bound_of (λ f. f.min_notional) (get_filter info min_notional))

-- `validate_order` accepts an order exactly if its snapped copy has a positive price and quantity
-- within the filters' bounds, where it has them, and a notional that reaches the minimum, where
-- there are both; it then returns that copy.
pub validate_order_iff :
    (unit : ℕ) (r r' : OrderRequest) (info : SymbolInfo)
    → (validate_order unit r info ≡ ok r')
      ↔ ((snapped r info ≡ r') × MeetsFilters unit info r (snapped r info))
unfolding validate_order
validate_order_iff unit r r' info =
    let checks = checks_iff _ _ _ (snapped r info) r' in
    let prices =
      check_range_iff "price" "price must be positive" "price below minPrice" "price above maxPrice"
        _ _ _ in
    let lots =
      check_range_iff "quantity" "quantity snapped to zero (below stepSize)" "quantity below minQty"
        "quantity above maxQty" _ _ _ in
    let total = check_notional_iff unit _ _ in
    (
      λ h. let c = checks.0 h in (c.0, (prices.0 c.1, lots.0 c.2, total.0 c.3)),
      λ h. checks.1 (h.0, prices.1 h.1.0, lots.1 h.1.1, total.1 h.1.2),
    )
