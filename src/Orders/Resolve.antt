-- ===== src/Orders/Resolve.antt =====
-- `_resolve_request` of binance_th/orders.py: a request, or the keyword parameters that make one. A
-- member of an enumeration is given by its text.
use mathlib.Core.Option
use binance_th.Prelude.Text.{strip}
use binance_th.Prelude.{String, ◌≡◌, Bool, ◌||◌, Option, none, some, List, is_some, if◌then◌else◌}
use binance_th.Prelude.Int.{ℤ}
use binance_th.Errors.Exceptions.{foreign, Result, ok, raise, ◌>>=◌}
use binance_th.Models.Base.{Decimal}
use binance_th.Models.Enums.{
  OrderSide, OrderType, TimeInForce, of_value, order_side_value, order_sides, order_type_value,
  order_types, time_in_force_value, times_in_force,
}
use binance_th.Models.Orders.{OrderRequest, validate_order_params}

pub record Keywords : Type 0 where
  pub symbol : Option String
  pub side : Option String
  pub order_type : Option String
  pub quantity : Option Decimal
  pub price : Option Decimal
  pub time_in_force : Option String
  pub quote_order_qty : Option Decimal
  pub stop_price : Option Decimal
  pub new_client_order_id : Option String
  pub recv_window : Option ℤ

-- `any(value is not None for value in kwargs)`
abbrev pub any_given : Keywords → Bool
any_given k =
    is_some k.symbol
    || is_some k.side
    || is_some k.order_type
    || is_some k.quantity
    || is_some k.price
    || is_some k.time_in_force
    || is_some k.quote_order_qty
    || is_some k.stop_price
    || is_some k.new_client_order_id
    || is_some k.recv_window

-- `E(raw)`
abbrev pub member : {E : Type 0} → (E → String) → List E → String → Result E
member value es raw = elim (of_value value es raw) [
  | none ↦ raise (foreign "ValueError")
  | some e ↦ ok e
]

abbrev pub optional_member :
    {E : Type 0} → (E → String) → List E → Option String → Result (Option E)
optional_member value es none = ok none
optional_member value es (some raw) = member value es raw >>= λ e. ok (some e)

abbrev request_of : String → OrderSide → OrderType → Option TimeInForce → Keywords → OrderRequest
request_of symbol s t f k = record {
  symbol = symbol;
  side = s;
  order_type = t;
  time_in_force = f;
  quantity = k.quantity;
  quote_order_qty = k.quote_order_qty;
  price = k.price;
  new_client_order_id = k.new_client_order_id;
  stop_price = k.stop_price;
  recv_window = k.recv_window;
}

abbrev built : String → String → String → Keywords → Result OrderRequest
built symbol side order_type k = do
  s ← member order_side_value order_sides side
  t ← member order_type_value order_types order_type
  f ← optional_member time_in_force_value times_in_force k.time_in_force
  validate_order_params (request_of symbol s t f k)

abbrev from_keywords :
    Option String → Option String → Option String → Keywords → Result OrderRequest
from_keywords (some symbol) (some side) (some order_type) k = built symbol side order_type k
from_keywords _ _ _ k =
    raise (foreign "symbol, side, and order_type are required when request= is omitted")

unfoldable pub resolve_request : Option OrderRequest → Keywords → Result OrderRequest
unfolding validate_order_params
resolve_request (some request) k =
    if any_given k
    then raise (foreign "pass either request= or keyword params, not both")
    else ok request
resolve_request none k = from_keywords k.symbol k.side k.order_type k

-- What a request shares with the keyword parameters.
abbrev pub IsFrom : Keywords → String → OrderRequest → Type 0
IsFrom k symbol r =
    (validate_order_params r ≡ ok r)
    × (r.symbol ≡ strip symbol)
    × (r.quantity ≡ k.quantity)
    × (r.price ≡ k.price)
    × (r.new_client_order_id ≡ Option.map strip k.new_client_order_id)
