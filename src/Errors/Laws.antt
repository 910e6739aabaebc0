-- ===== src/Errors/Laws.antt =====
-- What the error mapping promises: errors.py and exceptions.py.
use binance_th.Prelude.{
  ℕ, String, ◌≡◌, ◌≢◌, refl, ◌↔◌, ◌⊎◌, inl, inr, Option, some, false, ◌≤◌, ◌<◌, arith, or_else,
  List, [], ◌∷◌, Bool-cases, if_pos, if_neg, All,
}
use binance_th.Prelude.Int.{ℤ, pos, ℤ-discrete, sub_ℕ}
use binance_th.Prelude.Json.{Json, Fields, object, null, get, as_int}
use binance_th.Errors.Exceptions.{
  ApiClass, rate_limit, ip_banned, server, ApiError, api_error, ok, raise,
  get_exception_for_status_code, http_status_map,
}
use binance_th.Errors.Mapping.{
  Headers, header, extract, map_exception, exception_for_envelope_code, int_or_none,
  raise_for_http_status, unwrap, decisive, find_code, envelope_code_map,
}

-- The class that an HTTP status stands for is the server error exactly from 500 on.
server_iff : (s : ℕ) → (get_exception_for_status_code s ≡ server) ↔ (500 ≤ s)
unfolding get_exception_for_status_code http_status_map
server_iff s = (λ h. ground arith, λ h. ground arith)

find_code-ne-server :
    (code : ℤ) (l : List (ℕ × ApiClass)) → All (λ e. e.1 ≢ server) l → find_code code l ≢ server
unfolding find_code
find_code-ne-server code [] h = λ e. cc
find_code-ne-server code ((n, c) ∷ l) h = elim (ℤ-discrete code (sub_ℕ 0 n)) [
  | yes q ↦ rw (if_pos _ q) h.0
  | no q ↦ rw (if_neg _ q) (find_code-ne-server code l h.1)
]

-- No envelope code stands for a server error.
envelope_code_not_server : (code : ℤ) → exception_for_envelope_code code ≢ server
unfolding exception_for_envelope_code
envelope_code_not_server code = find_code-ne-server code envelope_code_map (ground arith)

-- A response raises exactly when its status is 400 or more.
pub raise_for_http_status_iff :
    (s : ℕ) (body : Json) (hs : Headers) → (raise_for_http_status s body hs ≡ ok tt) ↔ (s < 400)
unfolding raise_for_http_status
raise_for_http_status_iff s body hs = (λ h. ground arith, λ h. ground arith)

map_exception-server_iff :
    (s : ℕ) (code : Option ℤ)
    → (map_exception (some s) code ≡ server) ↔ ((500 ≤ s) × (decisive code ≡ false))
unfolding map_exception
map_exception-server_iff s code = elim (Bool-cases (decisive code)) [
  | inl coded ↦ (
    λ h. absurd (envelope_code_not_server (or_else code (pos 0)) (ground arith)),
    λ h. ground arith,
  )
  | inr bare ↦
      (λ h. ((server_iff s).0 (ground arith), bare), λ h. ground (arith, (server_iff s).1 h.0))
]

raised_class :
    (s : ℕ) (body : Json) (hs : Headers) (e : ApiError)
    → raise_for_http_status s body hs ≡ raise (api_error e)
    → e.class ≡ map_exception (some s) (extract body).0
unfolding raise_for_http_status
raised_class s body hs e h = ground arith

-- The error of a response whose body carries no code other than 0 is a server error exactly when the
-- status is at least 500.
pub raised_server_iff :
    (s : ℕ) (body : Json) (hs : Headers) (e : ApiError)
    → raise_for_http_status s body hs ≡ raise (api_error e)
    → decisive (extract body).0 ≡ false
    → (e.class ≡ server) ↔ (500 ≤ s)
raised_server_iff s body hs e h bare =
    let both = map_exception-server_iff s (extract body).0 in
    rw (raised_class s body hs e h) (λ is. (both.0 is).0, λ high. both.1 (high, bare))

-- The delay that an error carries is the one of the `retry-after` header, and only the errors for
-- 429 and 418 carry one.
pub raised_retry_after :
    (s : ℕ) (body : Json) (hs : Headers) (e : ApiError) (d : ℤ)
    → raise_for_http_status s body hs ≡ raise (api_error e)
    → e.retry_after ≡ some d
    → (int_or_none (header hs "retry-after") ≡ some d)
      × ((e.class ≡ rate_limit) ⊎ (e.class ≡ ip_banned))
unfolding raise_for_http_status
raised_retry_after s body hs e d h r = ground arith

-- `unwrap` gives back the `data` of a body whose code is the number 0, and raises for every other.
pub unwrap_ok_iff :
    (body : Json) (s : ℕ) (rid : Option String) (r : Json)
    → (unwrap body s rid ≡ ok r) ↔ (
        (fs : Fields) × (body ≡ object fs)
        × (as_int (get "code" fs) ≡ some (pos 0))
        × (or_else (get "data" fs) null ≡ r))
unfolding unwrap
unwrap_ok_iff (object fs) s rid r =
    (λ h. (fs, refl, ground arith, ground arith), λ p. ground (arith, p.1, p.2, p.3))
unwrap_ok_iff _ s rid r = (λ h. absurd (ground arith), λ p. absurd (ground (arith, p.1)))
