-- ===== src/Transport/Keeps.antt =====
-- What all operations of binance_th/transport.py keep, if every request that is sent keeps it.
use binance_th.Prelude.{
  ℕ, zero, suc, String, ◌≢◌, some, ◌≡◌, refl, inl, inr, Option, List, ◌&&◌, not, Bool-cases,
  Option-cases,
}
use binance_th.Errors.Exceptions.{Result-cases}
use binance_th.Prelude.Json.{Json}
use binance_th.Signing.{Params, signed_params-lookup}
use binance_th.TimeSync.{now_ms}
use binance_th.Prelude.Text.{String-discrete}
use binance_th.Prelude.Dict.{lookup}
use binance_th.Retry.{delay, run, run_from}
use binance_th.Transport.Reply.{is_timestamp_error, is_retryable}
use binance_th.Transport.Pipeline.{
  Call, Entry, World, Env, Act, bind, send, exchange, sync_time, execute, attempt, request, sleep,
  time_call, parse, set_time, can_sign,
}

-- An operation that keeps a relation between the limiter and the log of requests.
abbrev pub Keeps : {L A : Type 0} → (L → List Entry → Type 0) → Act L A → Type 0
Keeps I m = (w : World _) → I w.limiter w.sent → I (m w).1.limiter (m w).1.sent

-- Parameters that agree with the call's, save for those that signing adds.
abbrev pub Carries : Call → Params → Type 0
Carries c params =
    (k : String)
    → k ≢ "timestamp"
    → k ≢ "signature"
    → k ≢ "recvWindow"
    → lookup String-discrete k params ≡ lookup String-discrete k c.params

pub bind-Keeps :
    {L A B : Type 0} (I : L → List Entry → Type 0) (m : Act L A) (f : A → Act L B)
    → Keeps I m
    → ((a : A) → Keeps I (f a))
    → Keeps I (bind m f)
unfolding bind
bind-Keeps I m f hm hf w i = elim (Result-cases (m w).0) [
  | inl (a, h) ↦ rw (h, bind) (hf a (m w).1 (hm w i))
  | inr (e, h) ↦ rw (h, bind) (hm w i)
]

pub parse-Keeps :
    {L A : Type 0} (I : L → List Entry → Type 0) (model : Json → Option A) (body : Json)
    → Keeps I (parse {L = L} model body)
unfolding parse
parse-Keeps I model body w i = elim (Option-cases (model body)) [
  | inl none_made ↦ rw (none_made, parse) i
  | inr (a, made) ↦ rw (made, parse) i
]

module _ {L : Type 0} (env : Env L) (I : L → List Entry → Type 0) (C : Call → Type 0)
    (of_time : C time_call)
    (kept : (c : Call) (params : Params)
      → C c
      → Carries c params
      → Keeps I (send env c params)) where
  exchange-Keeps : (c : Call) → C c → Keeps I (exchange env c)
  unfolding exchange
  exchange-Keeps c ofc w i = elim (Bool-cases c.signed) [
    | inl signed ↦ elim (Option-cases env.api_secret) [
      | inl missing ↦ rw (signed, exchange, missing) i
      | inr (secret, h) ↦
          rw (signed, exchange, h)
            (kept c _ ofc
              (λ k nt ns nr.
                signed_params-lookup env.hmac secret c.params
                  (now_ms (env.clock w.clock_reads) w.timesync) (some env.recv_window) k nt ns
                  (inl nr))
              (record w { clock_reads = suc w.clock_reads }) i)
    ]
    | inr unsigned ↦
        let same : exchange env c w ≡ send env c c.params w = rw (unsigned, exchange) refl in
        rw same (kept c c.params ofc (λ k nt ns nr. refl) w i)
  ]

  pub sync_time-Keeps : Keeps I (sync_time env)
  unfolding sync_time set_time
  sync_time-Keeps =
      bind-Keeps I (exchange env time_call)
        (λ body. bind (parse env.server_time body) (set_time env))
        (exchange-Keeps time_call of_time)
        (λ body.
          bind-Keeps I (parse env.server_time body) (set_time env)
            (parse-Keeps I env.server_time body) (λ t w i. i))

  execute-Keeps : (c : Call) → C c → Keeps I (execute env c)
  unfolding execute
  execute-Keeps c ofc w i = elim (Bool-cases (c.signed && not w.timesync.synced)) [
    | inl unsynced ↦
        rw (unsynced, execute)
          (bind-Keeps I (sync_time env) (λ t. exchange env c) sync_time-Keeps
            (λ t. exchange-Keeps c ofc) w i)
    | inr ready ↦ rw (ready, execute) (exchange-Keeps c ofc w i)
  ]

  attempt-Keeps : (c : Call) → C c → Keeps I (attempt env c)
  unfolding attempt
  attempt-Keeps c ofc w i = elim (Bool-cases (c.signed && is_timestamp_error (execute env c w).0)) [
    | inl refused ↦
        rw (refused, attempt)
          (bind-Keeps I (sync_time env) (λ t. execute env c) sync_time-Keeps
            (λ t. execute-Keeps c ofc) (execute env c w).1 (execute-Keeps c ofc w i))
    | inr other ↦ rw (other, attempt) (execute-Keeps c ofc w i)
  ]

  run_from-Keeps :
      (c : Call) (left n : ℕ)
      → C c
      → Keeps I (run_from env.backoff (sleep env) (attempt env c) (is_retryable c.mutating) left n)
  unfolding run_from
  run_from-Keeps c zero n ofc w i = attempt-Keeps c ofc w i
  run_from-Keeps c (suc left) n ofc w i = elim (Result-cases (attempt env c w).0) [
    | inl (a, h) ↦ rw (h, run_from) (attempt-Keeps c ofc w i)
    | inr (e, h) ↦ elim (Bool-cases (is_retryable c.mutating e)) [
      | inl again ↦ elim (Option-cases (delay env.backoff e n)) [
        | inl over ↦ rw (h, run_from, again, over) (attempt-Keeps c ofc w i)
        | inr (d, waits) ↦
            rw (h, run_from, again, waits)
              (run_from-Keeps c left (suc n) ofc _ (attempt-Keeps c ofc w i))
      ]
      | inr stop ↦ rw (h, run_from, stop) (attempt-Keeps c ofc w i)
    ]
  ]

  pub request-Keeps : (c : Call) → C c → Keeps I (request env c)
  unfolding request run
  request-Keeps c ofc w i = elim (Bool-cases (c.signed && not (can_sign env))) [
    | inl barred ↦ rw (barred, request) i
    | inr free ↦ rw (free, request) (run_from-Keeps c env.max_retries 0 ofc w i)
  ]
