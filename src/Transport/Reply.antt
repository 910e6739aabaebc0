-- ===== src/Transport/Reply.antt =====
-- What `_execute` of binance_th/transport.py makes of a reply, and `_is_retryable`. A reply is what
-- the HTTP client returns or raises.
use binance_th.Prelude.{ℕ, String, Bool, true, false, Option, none, some, ltb, if◌then◌else◌}
use binance_th.Prelude.Int.{ℤ, negsuc, ℤ-discrete}
use binance_th.Prelude.Json.{Json, str}
use binance_th.Errors.Exceptions.{
  ApiClass, rate_limit, ip_banned, auth, server, Error, api_error, network_error, timeout_error,
  foreign, Result, ok, raise, ◌>>=◌, ◌>>◌,
}
use binance_th.Errors.Mapping.{Headers, header, raise_for_http_status, unwrap}

-- A response: its body as a text, and decoded where it is JSON.
pub record Response : Type 0 where
  pub status_code : ℕ
  pub headers : Headers
  pub text : String
  pub json : Option Json

-- The exceptions of the HTTP client carry their text: `httpx.TimeoutException`, any other
-- `httpx.HTTPError`.
pub data Reply : Type 0 where
  response : Response → Reply
  timed_out failed : String → Reply

-- `_decode`, with `_try_json`.
unfoldable pub decode : Bool → Response → Result Json
decode parse_json r = elim r.json [
  | some j ↦ if ltb r.status_code 400 then (if parse_json then ok j else ok (str r.text)) else ok j
  | none ↦
      if ltb r.status_code 400
      then (if parse_json then raise (foreign "JSONDecodeError") else ok (str r.text))
      else ok (str r.text)
]

abbrev or_text : String → String → String
or_text String.[] default = default
or_text s default = s

-- The rest of `_execute` once the HTTP client is done.
unfoldable pub handle : Bool → Bool → Reply → Result Json
unfolding decode
handle envelope parse_json (timed_out message) =
    raise (timeout_error (or_text message "Request timeout"))
handle envelope parse_json (failed message) =
    raise (network_error (or_text message "Network error"))
handle envelope parse_json (response r) = do
  body ← decode parse_json r
  raise_for_http_status r.status_code body r.headers
  if envelope then unwrap body r.status_code (header r.headers "x-mbx-uuid") else ok body

-- `isinstance(exc, BinanceThAuthError) and exc.code == -1021`
abbrev pub is_code : Option ℤ → ℤ → Bool
is_code none n = false
is_code (some code) n = elim (ℤ-discrete code n) [ yes e ↦ true | no e ↦ false ]

abbrev pub is_auth : ApiClass → Bool
is_auth auth = true
is_auth _ = false

abbrev pub timestamp_error : Error → Bool
timestamp_error (api_error e) = if is_auth e.class then is_code e.code (negsuc 1020) else false
timestamp_error _ = false

abbrev pub is_timestamp_error : {A : Type 0} → Result A → Bool
is_timestamp_error (ok a) = false
is_timestamp_error (raise e) = timestamp_error e

abbrev pub is_transient : Error → Bool
is_transient (api_error e) = elim e.class [
  | server ↦ true
  | rate_limit ↦ true
  | ip_banned ↦ true
  | _ ↦ false
]
is_transient (network_error m) = true
is_transient (timeout_error m) = true
is_transient _ = false

-- `_is_retryable`
unfoldable pub is_retryable : Bool → Error → Bool
is_retryable mutating e = if mutating then false else is_transient e
