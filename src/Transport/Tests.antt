-- ===== src/Transport/Tests.antt =====
-- The pipeline of binance_th/transport.py on a call whose timestamp is refused once.
use text.Mathlib.TextEquality.{eq_iff}
use binance_th.Prelude.{
  ◌≡◌, refl, true, false, none, some, [], ◌∷◌, arith, length, ℕ, if◌then◌else◌,
}
use binance_th.Prelude.Json.{Json, object, end}
use binance_th.Errors.Exceptions.{ok}
use binance_th.Transport.Pipeline.{Call, Env, request}
use binance_th.Prelude.Int.{pos}
use binance_th.Transport.Reply.{is_retryable}
use binance_th.Transport.Once.{SentOnce, request-SentOnce}
use binance_th.Transport.Sample.{sample_env, sample_world, late_once, answer}

abbrev cancel : Call
cancel = record {
  method = "DELETE";
  path = "/api/v1/order";
  params = ("symbol", "BTCUSDT") ∷ ("orderId", "7") ∷ [];
  signed = true;
  api_key_only = false;
  envelope = false;
  weight = 1;
  mutating = true;
  parse_json = true;
}

abbrev env : Env (Unit {0})
env = sample_env (λ j. none) (λ j. none) (late_once (answer 200 (object end)))

request-SentOnce_example : SentOnce cancel [] (request env cancel sample_world).1.sent
request-SentOnce_example =
    request-SentOnce env cancel (λ e. ground (arith, eq_iff "DELETE" "GET")) sample_world refl

-- The time, the refused request, the time again, and the request that succeeds.
request_runs :
    ((request env cancel sample_world).0 ≡ ok (object end))
    × (length (request env cancel sample_world).1.sent ≡ 4)
unfolding request binance_th.Transport.Reply.handle binance_th.Errors.Mapping.raise_for_http_status
    binance_th.TimeSync.update binance_th.Errors.Mapping.map_exception binance_th.Prelude.Json.get
    binance_th.Prelude.Text.String-discrete binance_th.Errors.Mapping.exception_for_envelope_code
    binance_th.Prelude.Int.ℤ-discrete
request_runs = (refl, refl)
