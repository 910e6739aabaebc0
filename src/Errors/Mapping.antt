-- ===== src/Errors/Mapping.antt =====
-- binance_th/errors.py, and `is_envelope` and `unwrap` of envelope.py.
use binance_th.Prelude.{
  ℕ, String, Option, none, some, Bool, true, false, List, [], ◌∷◌, ite, ltb, if◌then◌else◌, or_else,
}
use binance_th.Prelude.Int.{ℤ, pos, negsuc, ℤ-discrete, sub_ℕ}
use binance_th.Prelude.Json.{Json, Fields, object, null, str, get, as_int, as_str}
use binance_th.Prelude.Text.{codes, lower, same, parse_int}
use binance_th.Errors.Exceptions.{
  ApiClass, api, rate_limit, ip_banned, auth, bad_request, ApiError, Error, api_error, Message,
  text, http, api_code, shown, validation_error, Result, ok, raise, get_exception_for_status_code,
}

abbrev pub Headers : Type 0
Headers = List (String × String)

-- `ENVELOPE_CODE_MAP`, a code -n under n.
abbrev pub envelope_code_map : List (ℕ × ApiClass)
envelope_code_map =
    (1021, auth)
    ∷ (1022, auth)
    ∷ (2014, auth)
    ∷ (2015, auth)
    ∷ (1000, bad_request)
    ∷ (1100, bad_request)
    ∷ (1102, bad_request)
    ∷ (1013, bad_request)
    ∷ (1121, bad_request)
    ∷ (2013, bad_request)
    ∷ []

unfoldable pub find_code : ℤ → List (ℕ × ApiClass) → ApiClass
find_code code [] = api
find_code code ((n, c) ∷ rest) = ite (ℤ-discrete code (sub_ℕ 0 n)) c (find_code code rest)

unfoldable pub exception_for_envelope_code : ℤ → ApiClass
unfolding find_code
exception_for_envelope_code code = find_code code envelope_code_map

-- `_header`: the first value whose name agrees up to case.
unfoldable pub header : Headers → String → Option String
header [] name = none
header ((key, value) ∷ rest) name =
    if same (lower (codes key)) (lower (codes name)) then some value else header rest name

-- `_int_or_none`
unfoldable pub int_or_none : Option String → Option ℤ
int_or_none none = none
int_or_none (some value) = parse_int (codes value)

-- `_extract`
unfoldable pub extract : Json → Option ℤ × Option String
extract (object body) = (as_int (get "code" body), as_str (get "msg" body))
extract _ = (none, none)

-- `code is not None and code != 0`
abbrev pub decisive : Option ℤ → Bool
decisive none = false
decisive (some (pos n)) = ltb 0 n
decisive (some (negsuc n)) = true

unfoldable pub map_exception : Option ℕ → Option ℤ → ApiClass
map_exception status code =
    if decisive code
    then exception_for_envelope_code (or_else code (pos 0))
    else or_else (elim status [ none ↦ none | some s ↦ some (get_exception_for_status_code s) ]) api

-- `_build`: the rate-limit extras go only where the class takes them.
unfoldable pub build :
    ApiClass
    → Message
    → Option ℤ
    → Option ℕ
    → Option String
    → Option Fields
    → Option ℤ
    → Option ℤ
    → ApiError
build c message code status request_id body retry_after used_weight = record {
  class = c;
  message = message;
  code = code;
  status_code = status;
  request_id = request_id;
  response_data = body;
  retry_after = elim c [ rate_limit ↦ retry_after | ip_banned ↦ retry_after | _ ↦ none ];
  used_weight = elim c [ rate_limit ↦ used_weight | _ ↦ none ];
}

-- `body if isinstance(body, dict) else None`
abbrev pub as_fields : Json → Option Fields
as_fields (object body) = some body
as_fields _ = none

-- `msg or default`: an empty text counts as missing.
abbrev pub or_default : Message → Message → Message
or_default (text String.[]) d = d
or_default m d = m

abbrev as_message : Option String → Message
as_message none = text ""
as_message (some s) = text s

unfoldable pub raise_for_http_status : ℕ → Json → Headers → Result (Unit {0})
unfolding build extract
raise_for_http_status status body headers =
    let (code, msg) = extract body in
    if ltb status 400
    then ok tt
    else raise (
        api_error (
          build (map_exception (some status) code) (or_default (as_message msg) (http status)) code
            (some status) (header headers "x-mbx-uuid") (as_fields body)
            (int_or_none (header headers "retry-after"))
            (int_or_none (header headers "x-mbx-used-weight-1m"))))

unfoldable pub raise_envelope_error : ℤ → Message → ℕ → Fields → Option String → Error
unfolding build
raise_envelope_error code msg status body request_id = api_error (
    build (map_exception (some status) (some code)) (or_default msg (api_code code)) (some code)
      (some status) request_id (some body) none none)

-- `str(payload.get("msg", ""))`
abbrev str_msg : Option Json → Message
str_msg none = text ""
str_msg (some (str s)) = text s
str_msg (some v) = shown v

abbrev not_enveloped : Error
not_enveloped =
    validation_error "response" "Expected an enveloped response but received a bare payload"

-- `unwrap` of envelope.py, with `is_envelope` as its first test.
unfoldable pub unwrap : Json → ℕ → Option String → Result Json
unfolding raise_envelope_error
unwrap (object body) status request_id = elim (as_int (get "code" body)) [
  | none ↦ raise not_enveloped
  | some code ↦
      if decisive (some code)
      then raise (raise_envelope_error code (str_msg (get "msg" body)) status body request_id)
      else ok (or_else (get "data" body) null)
]
unwrap _ status request_id = raise not_enveloped
