-- ===== src/Orders/Tests.antt =====
-- The orders of binance_th/orders.py on an exchange whose answer to the POST is lost.
use mathlib.Core.Option
use binance_th.Prelude.{◌≡◌, refl, String, Bool, true, false, Option, none, some, List, [], ◌∷◌}
use binance_th.Prelude.Int.{ℤ, pos, negsuc}
use binance_th.Prelude.Json.{object, int, field, end}
use binance_th.Models.Enums.{sell, market}
use binance_th.Models.Orders.{OrderRequest, OrderIdentifier}
use binance_th.Orders.Resolve.{Keywords}
use binance_th.Orders.Cancel.{canceling, cancel_order, cancel_order-SentOnce}
use binance_th.Errors.Exceptions.{ApiError, Error, api_error, order_unknown, raise}
use binance_th.Transport.Reply.{Reply, timed_out, is_code}
use binance_th.Transport.Pipeline.{Entry, Request, Env, request}
use binance_th.Transport.Once.{SentOnce}
use binance_th.Transport.Sample.{sample_env, sample_world, answer, refusal}
use binance_th.Orders.Create.{place, post, query_order, create_order, is_unknown}
use binance_th.Orders.Safety.{placing, create_order-SentOnce}
use binance_th.Orders.Outcome.{place_resubmittable}
use binance_th.Orders.Named.{Named}

abbrev sale : OrderRequest
sale = record {
  symbol = "BTCUSDT";
  side = sell;
  order_type = market;
  time_in_force = none;
  quantity = some (pos 7);
  quote_order_qty = none;
  price = none;
  new_client_order_id = none;
  stop_price = none;
  recv_window = none;
}

-- The time, then no answer to the POST, then no such order.
abbrev lost : List Entry → Request → Reply
lost [] request = answer 200 (object (field "serverTime" (int (pos 900)) end))
lost (e ∷ []) request = timed_out "slow"
lost (e ∷ f ∷ rest) request = answer 400 (refusal (negsuc 2012))

abbrev env : Env (Unit {0})
env = sample_env (λ j. none) (λ j. none) lost

abbrev seven : ℤ → String
seven d = "7"

create_order-SentOnce_example :
    SentOnce placing [] (create_order env 1 seven "id" false sale sample_world).1.sent
create_order-SentOnce_example = create_order-SentOnce env 1 seven "id" false sale sample_world

place_resubmittable_example :
    (e : Error) × ((post env 1 seven sale sample_world).0 ≡ raise e)
    × (is_unknown e ≡ true)
    × ((a : ApiError) × ((query_order env 1 seven "BTCUSDT" "id"
            (post env 1 seven sale sample_world).1).0
          ≡ raise (api_error a))
        × (is_code a.code (negsuc 2012) ≡ true)
        × ◌≡◌ {A = String} "id" "id"
        × ◌≡◌ {A = String} "BTCUSDT" "BTCUSDT")
unfolding place binance_th.Transport.Reply.handle binance_th.Errors.Mapping.raise_for_http_status
    binance_th.TimeSync.update binance_th.Errors.Mapping.map_exception binance_th.Prelude.Json.get
    binance_th.Prelude.Text.String-discrete binance_th.Errors.Mapping.exception_for_envelope_code
    binance_th.Prelude.Int.ℤ-discrete
place_resubmittable_example =
    place_resubmittable env 1 seven "id" sale sample_world "id" "BTCUSDT" refl

create_order_runs :
    (create_order env 1 seven "id" false sale sample_world).0
    ≡ raise (order_unknown "id" "BTCUSDT" true)
unfolding create_order binance_th.Transport.Reply.handle
    binance_th.Errors.Mapping.raise_for_http_status binance_th.TimeSync.update
    binance_th.Errors.Mapping.map_exception binance_th.Prelude.Json.get
    binance_th.Prelude.Text.String-discrete binance_th.Errors.Mapping.exception_for_envelope_code
    binance_th.Prelude.Int.ℤ-discrete
create_order_runs = refl

abbrev by_client_id : OrderIdentifier
by_client_id = record {
  symbol = "BTCUSDT";
  order_id = none;
  orig_client_order_id = some "a";
  recv_window = none;
}

cancel_order-SentOnce_example :
    SentOnce canceling sample_world.sent (cancel_order env by_client_id sample_world).1.sent
cancel_order-SentOnce_example = cancel_order-SentOnce env by_client_id sample_world

abbrev sell_seven : Keywords
sell_seven = record {
  symbol = some " BTCUSDT ";
  side = some "SELL";
  order_type = some "MARKET";
  quantity = some (pos 7);
  price = none;
  time_in_force = none;
  quote_order_qty = none;
  stop_price = none;
  new_client_order_id = none;
  recv_window = none;
}
