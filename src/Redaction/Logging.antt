-- ===== src/Redaction/Logging.antt =====
-- `_log_request` and `_log_response` of binance_th/transport.py: what the transport hands to the
-- logger, if anything.
use mathlib.Core.Path.{subst}
use binance_th.Prelude.{
  String, ◌≡◌, Option, none, some, List, if◌then◌else◌, Bool-cases, inl, inr, ap, arith, or_else,
}
use binance_th.Prelude.Json.{Json, Fields, object}
use binance_th.Config.{BinanceThConfig}
use binance_th.Redaction.{redact_fields, redact_headers, Masked, MaskedFields, redact_fields-Masked}

-- The arguments of the format "request %s %s params=%s headers=%s".
pub record RequestLine : Type 0 where
  pub method : String
  pub path : String
  pub params : Fields
  pub headers : List (String × String)

unfoldable pub log_request :
    BinanceThConfig → String → String → Fields → List (String × String) → Option RequestLine
unfolding redact_fields redact_headers
log_request c method path params headers =
    if c.log_requests
    then some (record {
      method = method;
      path = path;
      params = redact_fields params;
      headers = redact_headers headers;
    })
    else none

-- `redact_params(result) if isinstance(result, dict) else result`
abbrev safe : Json → Json
safe (object fs) = object (redact_fields fs)
safe result = result

unfoldable pub log_response : BinanceThConfig → Json → Option Json
log_response c result = if c.log_responses then some (safe result) else none

-- The parameters of a request that is logged are masked at any depth.
log_request-Masked :
    (c : BinanceThConfig) (method path : String) (params : Fields)
    (headers : List (String × String)) (line : RequestLine)
    → log_request c method path params headers ≡ some line
    → MaskedFields line.params
unfolding log_request
log_request-Masked c method path params headers line logged = elim (Bool-cases c.log_requests) [
  | inl on ↦
      let e : redact_fields params ≡ line.params =
        ap (λ o. (or_else o line).params) (rw (on, log_request) at logged) in
      subst MaskedFields e (redact_fields-Masked params)
  | inr off ↦ absurd (ground (arith, logged, off))
]

-- So is the body of a response that is an object; any other body is logged as it is.
log_response-Masked :
    (c : BinanceThConfig) (body : Fields) (line : Json)
    → log_response c (object body) ≡ some line
    → Masked line
unfolding log_response
log_response-Masked c body line logged = elim (Bool-cases c.log_responses) [
  | inl on ↦
      let e : object (redact_fields body) ≡ line =
        ap (λ o. or_else o line) (rw (on, log_response) at logged) in
      subst Masked e (redact_fields-Masked body)
  | inr off ↦ absurd (ground (arith, logged, off))
]
