-- ===== src/Transport/Raised.antt =====
-- What the operations of binance_th/transport.py raise: never the error of an order whose state is
-- unknown, which is the order client's own.
use binance_th.Prelude.{
  ℕ, zero, suc, String, ◌≡◌, refl, Bool, true, false, Option, ◌&&◌, not, if◌then◌else◌, arith, inl,
  inr, Bool-cases, Option-cases,
}
use binance_th.Prelude.Json.{Json, object}
use binance_th.Errors.Exceptions.{order_unknown, auth_error, ◌>>◌, Result, ok, raise, Result-cases}
use binance_th.Errors.Mapping.{Headers, raise_for_http_status, unwrap}
use binance_th.Retry.{delay, run, run_from}
use binance_th.Transport.Reply.{
  Response, Reply, response, timed_out, failed, decode, handle, is_timestamp_error, is_retryable,
}
use binance_th.Transport.Pipeline.{
  Call, World, Env, Act, bind, parse, send, exchange, set_time, sync_time, execute, attempt,
  request, sleep, time_call, can_sign,
}
use binance_th.Transport.Sent.{bind_cases}

abbrev pub plain : {A : Type 0} → Result A → Bool
plain (ok a) = true
plain (raise (order_unknown cid symbol resubmittable)) = false
plain (raise e) = true

abbrev pub Plain : {L A : Type 0} → Act L A → Type 0
Plain m = (w : World _) → plain (m w).0 ≡ true

unwrap-plain : (body : Json) (s : ℕ) (rid : Option String) → plain (unwrap body s rid) ≡ true
unfolding unwrap
unwrap-plain (object fs) s rid = ground arith
unwrap-plain _ s rid = refl

checked-plain :
    (envelope : Bool) (body : Json) (s : ℕ) (hs : Headers) (rid : Option String)
    → plain (raise_for_http_status s body hs >> (if envelope then unwrap body s rid else ok body))
      ≡ true
unfolding raise_for_http_status
checked-plain envelope body s hs rid = ground (arith, unwrap-plain body s rid)

decode-plain : (parse_json : Bool) (r : Response) → plain (decode parse_json r) ≡ true
unfolding decode
decode-plain parse_json r = ground arith

handle-plain :
    (envelope parse_json : Bool) (r : Reply) → plain (handle envelope parse_json r) ≡ true
unfolding handle
handle-plain envelope parse_json (response r) = elim (Result-cases (decode parse_json r)) [
  | inl (body, h) ↦ rw h (checked-plain envelope body r.status_code r.headers _)
  | inr (e, h) ↦ rw h (rw h at (decode-plain parse_json r))
]
handle-plain envelope parse_json (timed_out m) = refl
handle-plain envelope parse_json (failed m) = refl

module _ {L A B : Type 0} where
  pub bind-Plain :
      (m : Act L A) (f : A → Act L B) → Plain m → ((a : A) → Plain (f a)) → Plain (bind m f)
  bind-Plain m f hm hf w = elim (bind_cases m f w) [
    | inl (a, done, h) ↦ rw h (hf a (m w).1)
    | inr (e, stopped, h) ↦ rw h (rw stopped at (hm w))
  ]

pub parse-Plain :
    {L A : Type 0} (model : Json → Option A) (body : Json)
    → Plain {L = L} {A = A} (parse model body)
unfolding parse
parse-Plain model body w = ground arith

module _ {L : Type 0} (env : Env L) where
  exchange-Plain : (c : Call) → Plain (exchange env c)
  unfolding exchange send auth_error
  exchange-Plain c w = elim (Bool-cases c.signed) [
    | inl signed ↦ elim (Option-cases env.api_secret) [
      | inl missing ↦ rw (signed, exchange, missing) refl
      | inr (secret, h) ↦ rw (signed, exchange, h) (handle-plain _ _ _)
    ]
    | inr unsigned ↦ rw (unsigned, exchange) (handle-plain _ _ _)
  ]

  sync_time-Plain : Plain (sync_time env)
  unfolding sync_time set_time
  sync_time-Plain =
      bind-Plain (exchange env time_call) (λ body. bind (parse env.server_time body) (set_time env))
        (exchange-Plain time_call)
        (λ body.
          bind-Plain (parse env.server_time body) (set_time env) (parse-Plain env.server_time body)
            (λ t w. refl))

  execute-Plain : (c : Call) → Plain (execute env c)
  unfolding execute
  execute-Plain c w = elim (Bool-cases (c.signed && not w.timesync.synced)) [
    | inl unsynced ↦
        rw (unsynced, execute)
          (bind-Plain (sync_time env) (λ t. exchange env c) sync_time-Plain (λ t. exchange-Plain c)
            w)
    | inr ready ↦ rw (ready, execute) (exchange-Plain c w)
  ]

  attempt-Plain : (c : Call) → Plain (attempt env c)
  unfolding attempt
  attempt-Plain c w = elim (Bool-cases (c.signed && is_timestamp_error (execute env c w).0)) [
    | inl refused ↦
        rw (refused, attempt)
          (bind-Plain (sync_time env) (λ t. execute env c) sync_time-Plain (λ t. execute-Plain c)
            (execute env c w).1)
    | inr other ↦ rw (other, attempt) (execute-Plain c w)
  ]

  run_from-Plain :
      (c : Call) (left n : ℕ)
      → Plain (run_from env.backoff (sleep env) (attempt env c) (is_retryable c.mutating) left n)
  unfolding run_from
  run_from-Plain c zero n w = attempt-Plain c w
  run_from-Plain c (suc left) n w = elim (Result-cases (attempt env c w).0) [
    | inl (a, h) ↦ rw (h, run_from) refl
    | inr (e, h) ↦ elim (Bool-cases (is_retryable c.mutating e)) [
      | inl again ↦ elim (Option-cases (delay env.backoff e n)) [
        | inl over ↦ rw (h, run_from, again, over) refl
        | inr (d, waits) ↦ rw (h, run_from, again, waits) (run_from-Plain c left (suc n) _)
      ]
      | inr stop ↦ rw (h, run_from, stop) (rw h at (attempt-Plain c w))
    ]
  ]

  pub request-Plain : (c : Call) → Plain (request env c)
  unfolding request run auth_error
  request-Plain c w = elim (Bool-cases (c.signed && not (can_sign env))) [
    | inl barred ↦ rw (barred, request) refl
    | inr free ↦ rw (free, request) (run_from-Plain c env.max_retries 0 w)
  ]
