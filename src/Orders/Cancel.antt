-- ===== src/Orders/Cancel.antt =====
-- `cancel_order` of binance_th/orders.py: an order named by its id or by its client id.
use mathlib.Core.Option
use text.Mathlib.TextEquality.{eq_iff}
use binance_th.Prelude.{String, ◌≢◌, refl, inl, inr, true, false, [], ◌∷◌, ◌++◌, arith}
use binance_th.Prelude.Show.{show_ℤ}
use binance_th.Errors.Exceptions.{ok, raise, Result-cases}
use binance_th.Models.Orders.{Order, OrderIdentifier, validate_order_identifier}
use binance_th.Signing.{Params}
use binance_th.Transport.Pipeline.{Call, World, Env, Act, bind, parse, request}
use binance_th.Transport.Sent.{bind_cases, parse-Reads}
use binance_th.Transport.Once.{SentOnce, request-SentOnce, SentOnce-after}
use binance_th.Orders.Create.{optional}

-- `_params` of a request that names an order.
abbrev pub identifier_params : OrderIdentifier → Params
identifier_params r =
    ("symbol", r.symbol) ∷ optional "orderId" (Option.map show_ℤ r.order_id)
    ++ optional "origClientOrderId" r.orig_client_order_id
    ++ optional "recvWindow" (Option.map show_ℤ r.recv_window)

abbrev pub cancel_call : Params → Call
cancel_call params = record {
  method = "DELETE";
  path = "/api/v1/order";
  params = params;
  signed = true;
  api_key_only = false;
  envelope = false;
  weight = 1;
  mutating = true;
  parse_json = true;
}

abbrev pub canceling : Call
canceling = cancel_call []

delete_ne_get : ◌≢◌ {A = String} "DELETE" "GET"
delete_ne_get = λ e. ground (arith, eq_iff "DELETE" "GET")

module _ {L : Type 0} (env : Env L) where
  unfoldable pub delete_order : OrderIdentifier → Act L Order
  unfolding bind parse request
  delete_order r = bind (request env (cancel_call (identifier_params r))) (parse env.order_of)

  unfoldable pub cancel_order : OrderIdentifier → Act L Order
  unfolding delete_order validate_order_identifier
  cancel_order r w = elim (validate_order_identifier r) [
    | raise e ↦ (raise e, w)
    | ok valid ↦ delete_order valid w
  ]

  delete_order-SentOnce :
      (r : OrderIdentifier) (w : World L) → SentOnce canceling w.sent (delete_order r w).1.sent
  unfolding delete_order
  delete_order-SentOnce r w =
      let c = cancel_call (identifier_params r) in
      let sent = request-SentOnce env c delete_ne_get w refl in
      elim (bind_cases (request env c) (parse env.order_of) w) [
        | inl (body, done, h) ↦
            rw (h, delete_order)
              (SentOnce-after canceling delete_ne_get sent
                (parse-Reads env.order_of body (request env c w).1))
        | inr (e, failed, h) ↦ rw (h, delete_order) sent
      ]

  -- Of all the DELETE requests that one `cancel_order` sends, across the sync of the clock, all
  -- but the latest were refused with code -1021.
  pub cancel_order-SentOnce :
      (r : OrderIdentifier) (w : World L) → SentOnce canceling w.sent (cancel_order r w).1.sent
  unfolding cancel_order
  cancel_order-SentOnce r w = elim (Result-cases (validate_order_identifier r)) [
    | inl (valid, h) ↦ rw (cancel_order, h) (delete_order-SentOnce valid w)
    | inr (e, h) ↦ rw (cancel_order, h) ([], refl, tt)
  ]
