-- ===== src/Errors/Exceptions.antt =====
-- binance_th/exceptions.py: the hierarchy as data, the defaults of the constructors, and the map
-- from an HTTP status to a class. `details` is never set by the code and is left out.
use binance_th.Prelude.{
  ℕ, String, ◌≡◌, refl, ◌⊎◌, inl, inr, Option, none, some, Bool, true, false, ◌||◌, leb, ◌==◌,
  if◌then◌else◌,
}
use binance_th.Prelude.Int.{ℤ}
use binance_th.Prelude.Json.{Json, Fields}

-- `BinanceThAPIError` and its subclasses.
pub data ApiClass : Type 0 where
  api rate_limit ip_banned waf auth bad_request server : ApiClass

-- A message: a text, one that the code formats around a number, or the `str` of a JSON value.
pub data Message : Type 0 where
  text : String → Message
  http : ℕ → Message
  api_code : ℤ → Message
  shown : Json → Message

-- An instance of one of these classes.
pub record ApiError : Type 0 where
  pub class : ApiClass
  pub message : Message
  pub code : Option ℤ
  pub status_code : Option ℕ
  pub request_id : Option String
  pub response_data : Option Fields
  pub retry_after : Option ℤ
  pub used_weight : Option ℤ

-- Any exception that the modelled code meets. `foreign` is one outside the hierarchy, such as a
-- `ValueError` or a validation error of pydantic.
pub data Error : Type 0 where
  api_error : ApiError → Error
  network_error timeout_error web_socket_error : String → Error
  validation_error : String → String → Error
  order_unknown : String → String → Bool → Error
  foreign : String → Error

-- A call that may raise.
pub data Result {ℓ} (A : Type ℓ) : Type ℓ where
  ok : A → Result A
  raise : Error → Result A

infixl 5 ◌>>=◌ ◌>>◌
abbrev pub ◌>>=◌ {ℓ κ} : {A : Type ℓ} {B : Type κ} → Result A → (A → Result B) → Result B
ok a >>= f = f a
raise e >>= f = raise e

abbrev pub ◌>>◌ {ℓ} : {B : Type ℓ} → Result (Unit {0}) → Result B → Result B
m >> k = m >>= λ _. k

-- `if test: raise e`
abbrev pub raise_if : Bool → Error → Result (Unit {0})
raise_if true e = raise e
raise_if false e = ok tt

-- `BinanceThAuthError(message)`, with the constructor's default status.
unfoldable pub auth_error : String → Error
auth_error message = api_error (record {
  class = auth;
  message = text message;
  code = none;
  status_code = some 401;
  request_id = none;
  response_data = none;
  retry_after = none;
  used_weight = none;
})

-- `HTTP_STATUS_MAP.get(status_code, BinanceThAPIError)`
unfoldable pub http_status_map : ℕ → ApiClass
http_status_map s =
    if s == 400
    then bad_request
    else if s == 401
    then auth
    else if s == 403
    then waf
    else if s == 418
    then ip_banned
    else if s == 429
    then rate_limit
    else if s == 500 || (s == 502 || (s == 503 || s == 504))
    then server
    else api

unfoldable pub get_exception_for_status_code : ℕ → ApiClass
unfolding http_status_map
get_exception_for_status_code s = if leb 500 s then server else http_status_map s

pub Result-cases {ℓ} :
    {A : Type ℓ} (r : Result A) → ((a : A) × (r ≡ ok a)) ⊎ ((e : Error) × (r ≡ raise e))
Result-cases (ok a) = inl (a, refl)
Result-cases (raise e) = inr (e, refl)
