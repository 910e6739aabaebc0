-- ===== src/Orders/Create.antt =====
-- `OrdersClient` of binance_th/orders.py: `create_order` of a resolved request, `query_order`, and
-- the reconciliation. `unit` is the number of units in 1, `decimal_text` is `format(value, "f")`.
-- The optional execution rules change nothing (`_check_price_range` enforces nothing) and are left
-- out.
use mathlib.Core.Option
use binance_th.Prelude.{
  ℕ, String, Bool, true, false, Option, none, some, [], ◌∷◌, ◌++◌, not, if◌then◌else◌,
}
use binance_th.Prelude.Int.{negsuc}
use binance_th.Prelude.Show.{show_ℤ}
use binance_th.Errors.Exceptions.{
  ApiClass, server, Error, api_error, network_error, timeout_error, validation_error, order_unknown,
  auth_error, Result, ok, raise,
}
use binance_th.Models.Base.{Decimal, ExchangeInfo, get_symbol}
use binance_th.Models.Enums.{order_side_value, order_type_value, time_in_force_value}
use binance_th.Models.Orders.{Order, OrderRequest}
use binance_th.Validation.Order.{validate_order}
use binance_th.Signing.{Params}
use binance_th.Transport.Reply.{is_code}
use binance_th.Transport.Pipeline.{Call, Env, Act, bind, parse, request, can_sign}
use binance_th.Client.{exchange_info}

-- A parameter that is there.
abbrev pub optional : String → Option String → Params
optional name none = []
optional name (some value) = (name, value) ∷ []

-- `_params` of an order request.
unfoldable pub order_params : (Decimal → String) → OrderRequest → Params
unfolding show_ℤ
order_params decimal_text r =
    ("symbol", r.symbol)
      ∷ ("side", order_side_value r.side)
      ∷ ("type", order_type_value r.order_type)
      ∷ optional "timeInForce" (Option.map time_in_force_value r.time_in_force)
    ++ optional "quantity" (Option.map decimal_text r.quantity)
    ++ optional "quoteOrderQty" (Option.map decimal_text r.quote_order_qty)
    ++ optional "price" (Option.map decimal_text r.price)
    ++ optional "newClientOrderId" r.new_client_order_id
    ++ optional "stopPrice" (Option.map decimal_text r.stop_price)
    ++ optional "recvWindow" (Option.map show_ℤ r.recv_window)

abbrev pub order_call : Params → Call
order_call params = record {
  method = "POST";
  path = "/api/v1/order";
  params = params;
  signed = true;
  api_key_only = false;
  envelope = false;
  weight = 1;
  mutating = true;
  parse_json = true;
}

-- The call of `query_order(symbol, orig_client_order_id=...)`.
abbrev pub query_call : String → String → Call
query_call symbol client_order_id = record {
  method = "GET";
  path = "/api/v1/order";
  params = ("symbol", symbol) ∷ ("origClientOrderId", client_order_id) ∷ [];
  signed = true;
  api_key_only = false;
  envelope = false;
  weight = 2;
  mutating = false;
  parse_json = true;
}

-- The errors after which the order may or may not have been placed.
abbrev pub is_server : ApiClass → Bool
is_server server = true
is_server _ = false

abbrev pub is_unknown : Error → Bool
is_unknown (api_error e) = is_server e.class
is_unknown (network_error m) = true
is_unknown (timeout_error m) = true
is_unknown _ = false

-- `order.new_client_order_id or self._mint_id()`: an empty id counts as missing.
abbrev pub client_id : Option String → String → String
client_id none minted = minted
client_id (some String.[]) minted = minted
client_id (some s) minted = s

abbrev pub with_id : OrderRequest → String → OrderRequest
with_id r minted = elim r.new_client_order_id [
  | none ↦ record r { new_client_order_id = some minted }
  | some s ↦ r
]

-- `except BinanceThAPIError` of `_reconcile`.
abbrev pub confirm : String → String → Result Order → Result Order
confirm symbol cid (raise (api_error e)) =
    raise (order_unknown cid symbol (is_code e.code (negsuc 2012)))
confirm symbol cid r = r

module _ {L : Type 0} (env : Env L) (unit : ℕ) (decimal_text : Decimal → String) where
  unfoldable pub query_order : String → String → Act L Order
  unfolding bind parse request
  query_order symbol cid = bind (request env (query_call symbol cid)) (parse env.order_of)

  -- `_reconcile`
  unfoldable pub reconcile : String → String → Act L Order
  unfolding query_order
  reconcile symbol cid w =
      (confirm symbol cid (query_order symbol cid w).0, (query_order symbol cid w).1)

  unfoldable pub post : OrderRequest → Act L Order
  unfolding bind parse request order_params
  post r = bind (request env (order_call (order_params decimal_text r))) (parse env.order_of)

  -- The `try` of `create_order`.
  unfoldable pub place : String → OrderRequest → Act L Order
  unfolding post reconcile
  place cid r w = elim (post r w).0 [
    | ok order ↦ (ok order, (post r w).1)
    | raise e ↦
        if is_unknown e then reconcile r.symbol cid (post r w).1 else (raise e, (post r w).1)
  ]

  -- `_validate`
  unfoldable pub look_again : OrderRequest → ExchangeInfo → Act L OrderRequest
  unfolding validate_order get_symbol
  look_again r info w = elim (get_symbol info r.symbol) [
    | some s ↦ (validate_order unit r s, w)
    | none ↦ (raise (validation_error "symbol" "unknown symbol"), w)
  ]

  unfoldable pub look_up : OrderRequest → ExchangeInfo → Act L OrderRequest
  unfolding look_again validate_order get_symbol exchange_info bind
  look_up r info w = elim (get_symbol info r.symbol) [
    | some s ↦ (validate_order unit r s, w)
    | none ↦ bind (exchange_info env true) (look_again r) w
  ]

  unfoldable pub validated : Bool → OrderRequest → Act L OrderRequest
  unfolding look_up exchange_info bind
  validated validate r w =
      if validate then bind (exchange_info env false) (look_up r) w else (ok r, w)

  -- `create_order`; `minted` is what the factory of client order ids gives.
  unfoldable pub create_order : String → Bool → OrderRequest → Act L Order
  unfolding validated place bind
  create_order minted validate r w =
      if not (can_sign env)
      then (raise (auth_error "API credentials are required for signed endpoints"), w)
      else bind (validated validate (with_id r minted))
          (place (client_id r.new_client_order_id minted)) w
