-- ===== src/Errors/Tests.antt =====
-- The error mapping of binance_th/errors.py and envelope.py on a few responses.
use binance_th.Prelude.{
  ℕ, String, ◌≡◌, refl, ◌↔◌, ◌⊎◌, Option, none, some, false, ◌≤◌, ◌<◌, List, [], ◌∷◌, or_else,
}
use binance_th.Prelude.Int.{pos, negsuc, ℤ-discrete}
use binance_th.Prelude.Json.{Json, Fields, object, null, int, str, end, field, get, as_int}
use binance_th.Errors.Exceptions.{
  ApiError, api_error, ok, raise, text, http, server, rate_limit, ip_banned, bad_request,
}
use binance_th.Errors.Mapping.{
  Headers, header, extract, int_or_none, decisive, raise_for_http_status, unwrap,
}
use binance_th.Errors.Laws.{
  raise_for_http_status_iff, raised_server_iff, raised_retry_after, unwrap_ok_iff,
}

abbrev refused : Json
refused = object (field "code" (int (negsuc 999)) (field "msg" (str "no luck") end))

abbrev busy : Headers
busy = ("Retry-After", "3") ∷ []

raise_for_http_status_iff_sample : (raise_for_http_status 204 null [] ≡ ok tt) ↔ (204 < 400)
raise_for_http_status_iff_sample = raise_for_http_status_iff 204 null []

-- The error of status 503 with an empty body.
abbrev bare : ApiError
bare = record {
  class = server;
  message = http 503;
  code = none;
  status_code = some 503;
  request_id = none;
  response_data = some end;
  retry_after = none;
  used_weight = none;
}

raised_server_iff_example : (bare.class ≡ server) ↔ (500 ≤ 503)
unfolding raise_for_http_status header int_or_none binance_th.Errors.Mapping.map_exception get
    binance_th.Prelude.Text.String-discrete binance_th.Errors.Mapping.exception_for_envelope_code
    ℤ-discrete binance_th.Errors.Exceptions.get_exception_for_status_code
raised_server_iff_example = raised_server_iff 503 (object end) [] bare refl refl

abbrev slow_down : ApiError
slow_down = record {
  class = rate_limit;
  message = http 429;
  code = none;
  status_code = some 429;
  request_id = none;
  response_data = some end;
  retry_after = some (pos 3);
  used_weight = none;
}

raised_retry_after_sample :
    (int_or_none (header busy "retry-after") ≡ some (pos 3))
    × ((slow_down.class ≡ rate_limit) ⊎ (slow_down.class ≡ ip_banned))
unfolding raise_for_http_status header int_or_none binance_th.Errors.Mapping.map_exception get
    binance_th.Prelude.Text.same binance_th.Errors.Exceptions.get_exception_for_status_code
    binance_th.Prelude.Text.lower binance_th.Prelude.Text.parse_int
raised_retry_after_sample = raised_retry_after 429 (object end) busy slow_down (pos 3) refl refl

unwrap_ok_iff_sample : (unwrap (object (field "code" (int (pos 0)) end)) 200 none ≡ ok null) ↔ (
    (fs : Fields) × (object (field "code" (int (pos 0)) end) ≡ object fs)
    × (as_int (get "code" fs) ≡ some (pos 0))
    × (or_else (get "data" fs) null ≡ null))
unwrap_ok_iff_sample = unwrap_ok_iff (object (field "code" (int (pos 0)) end)) 200 none null
