-- ===== src/Transport/Pipeline.antt =====
-- `Transport` of binance_th/transport.py. The HTTP client, the limiter and the parsing of a time
-- response are parameters; the client may answer by all that was sent before.
use binance_th.Prelude.{
  ℕ, suc, String, Bool, true, false, Option, none, some, List, [], ◌∷◌, ◌&&◌, not, is_some,
  if◌then◌else◌,
}
use binance_th.Prelude.Int.{ℤ}
use binance_th.Prelude.Json.{Json}
use binance_th.Errors.Exceptions.{auth_error, foreign, Result, ok, raise}
use binance_th.Models.Base.{RateLimit, ExchangeInfo}
use binance_th.Models.Orders.{Order}
use binance_th.Errors.Mapping.{Headers}
use binance_th.Signing.{Params, signed_params}
use binance_th.TimeSync.{TimeSync, now_ms, update}
use binance_th.Retry.{Backoff, run}
use binance_th.Transport.Reply.{Reply, response, handle, is_timestamp_error, is_retryable}

pub record Request : Type 0 where
  pub method : String
  pub path : String
  pub params : Params
  pub api_key : Option String

-- The arguments of `request`.
pub record Call : Type 0 where
  pub method : String
  pub path : String
  pub params : Params
  pub signed : Bool
  pub api_key_only : Bool
  pub envelope : Bool
  pub weight : ℕ
  pub mutating : Bool
  pub parse_json : Bool

abbrev pub Entry : Type 0
Entry = Request × Reply

-- What the transport and the client change: the limiter, the clock offset, the requests sent so
-- far, the latest first, with their replies, the number of clock readings, the sleeps between
-- retries, and the client's cache.
pub record World (L : Type 0) : Type 0 where
  pub limiter : L
  pub timesync : TimeSync
  pub sent : List Entry
  pub clock_reads : ℕ
  pub slept : List ℤ
  pub exchange_info_cache : Option ExchangeInfo

-- What the transport is built with. The parsers of pydantic give `none` where they raise.
pub record Env (L : Type 0) : Type 0 where
  pub api_key : Option String
  pub api_secret : Option String
  pub recv_window : ℤ
  pub max_retries : ℕ
  pub backoff : Backoff
  pub acquire : ℕ → Bool → L → L
  pub update_from_headers : Headers → L → L
  pub hmac : String → String → String
  pub clock : ℕ → ℤ
  pub http : List Entry → Request → Reply
  pub server_time : Json → Option ℤ
  pub exchange_info_of : Json → Option ExchangeInfo
  pub order_of : Json → Option Order
  pub reseed : List RateLimit → L → L

-- An operation on the world that may raise.
abbrev pub Act : Type 0 → Type 0 → Type 0
Act L A = World L → Result A × World L

-- A model made from a body: `Model(**raw)`.
unfoldable pub parse : {L A : Type 0} → (Json → Option A) → Json → Act L A
parse model body w = elim (model body) [
  | none ↦ (raise (foreign "ValidationError"), w)
  | some a ↦ (ok a, w)
]

-- `m`, then `f` with its result where it does not raise.
unfoldable pub bind : {L A B : Type 0} → Act L A → (A → Act L B) → Act L B
bind m f w = elim (m w).0 [ ok a ↦ f a (m w).1 | raise e ↦ (raise e, (m w).1) ]

abbrev pub time_call : Call
time_call = record {
  method = "GET";
  path = "/api/v1/time";
  params = [];
  signed = false;
  api_key_only = false;
  envelope = false;
  weight = 1;
  mutating = false;
  parse_json = true;
}

module _ {L : Type 0} (env : Env L) where
  abbrev pub can_sign : Bool
  can_sign = is_some env.api_secret && is_some env.api_key

  abbrev pub learn : Reply → L → L
  learn (response r) l = env.update_from_headers r.headers l
  learn _ l = l

  abbrev pub request_of : Call → Params → Request
  request_of c params = record {
    method = c.method;
    path = c.path;
    params = params;
    api_key = if c.signed then env.api_key else if c.api_key_only then env.api_key else none;
  }

  unfoldable pub send : Call → Params → Act L Json
  send c params w =
      let request = request_of c params in
      let reply = env.http w.sent request in
      (
        handle c.envelope c.parse_json reply,
        record w {
          limiter = learn reply (env.acquire c.weight c.mutating w.limiter);
          sent = (request, reply) ∷ w.sent;
        },
      )

  -- `_execute` once the offset is known.
  unfoldable pub exchange : Call → Act L Json
  unfolding send
  exchange c w =
      if c.signed
      then elim env.api_secret [
        | none ↦ (raise (auth_error "API credentials are required for signed endpoints"), w)
        | some secret ↦
            send c
              (signed_params env.hmac secret c.params (now_ms (env.clock w.clock_reads) w.timesync)
                (some env.recv_window))
              (record w { clock_reads = suc w.clock_reads })
      ]
      else send c c.params w

  unfoldable pub set_time : ℤ → Act L ℤ
  set_time server_time w = (
    ok server_time,
    record w {
      timesync = update (env.clock w.clock_reads) server_time;
      clock_reads = suc w.clock_reads;
    },
  )

  unfoldable pub sync_time : Act L ℤ
  unfolding exchange bind parse set_time
  sync_time = bind (exchange time_call) λ body. bind (parse env.server_time body) set_time

  -- `_execute`
  unfoldable pub execute : Call → Act L Json
  unfolding sync_time exchange bind
  execute c w =
      if c.signed && not w.timesync.synced then bind sync_time (λ t. exchange c) w else exchange c w

  unfoldable pub attempt : Call → Act L Json
  unfolding sync_time execute bind
  attempt c w =
      if c.signed && is_timestamp_error (execute c w).0
      then bind sync_time (λ t. execute c) (execute c w).1
      else execute c w

  abbrev pub sleep : ℤ → World L → World L
  sleep d w = record w { slept = d ∷ w.slept }

  unfoldable pub request : Call → Act L Json
  unfolding attempt run is_retryable
  request c w =
      if c.signed && not can_sign
      then (raise (auth_error "API credentials are required for signed endpoints"), w)
      else run env.backoff sleep (attempt c) (is_retryable c.mutating) env.max_retries w
