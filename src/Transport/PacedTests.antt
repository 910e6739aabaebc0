-- ===== src/Transport/PacedTests.antt =====
-- The pipeline of binance_th/transport.py with the limiter of binance_th/ratelimit.py, on two signed
-- reads of which the second must wait for the next minute.
use binance_th.Prelude.{ℕ, ◌≡◌, refl, true, false, none, some, [], ◌∷◌, arith, length, All}
use binance_th.Prelude.Int.{pos}
use binance_th.Prelude.Json.{object, field, int, end}
use binance_th.Config.{BinanceThConfig, default_config}
use binance_th.Models.Enums.{request_weight, minute}
use binance_th.Retry.{default_backoff}
use binance_th.TimeSync.{unsynced}
use binance_th.RateLimit.Window.{WindowKey}
use binance_th.RateLimit.Limiter.{Windows}
use binance_th.RateLimit.History.{IsPaced}
use binance_th.Transport.Pipeline.{Call, World}
use binance_th.Transport.Wiring.{Parts, env_of}
use binance_th.Transport.Sample.{answer, server_time}
use binance_th.Transport.Paced.{Pacer, dual_limiter, requests, requests-IsPaced}

abbrev config : BinanceThConfig
config = record default_config { api_key = some "key"; api_secret = some "secret" }

abbrev elapse : ℕ → ℕ
elapse n = 5

abbrev parts : Parts Pacer
parts = record {
  limiter = none;
  dual = dual_limiter elapse;
  backoff = default_backoff (λ ceiling. ceiling);
  hmac = λ secret payload. payload;
  clock = λ n. pos n;
  http = λ log request. answer 200 (object (field "serverTime" (int (pos 900)) end));
  server_time = server_time;
  exchange_info_of = λ j. none;
  order_of = λ j. none;
}

abbrev account_read : Call
account_read = record {
  method = "GET";
  path = "/api/v1/accountV2";
  params = [];
  signed = true;
  api_key_only = false;
  envelope = false;
  weight = 10;
  mutating = false;
  parse_json = true;
}

abbrev key : WindowKey
key = record { rate_limit_type = request_weight; interval = minute; interval_num = 1 }

abbrev windows : Windows
windows =
    (key, record { key = key; limit = 15; duration = 60_000; used = 0; window_start = none }) ∷ []

abbrev start : World Pacer
start = record {
  limiter = record { windows = windows; time = 0; readings = 0; admitted = [] };
  timesync = unsynced;
  sent = [];
  clock_reads = 0;
  slept = [];
  exchange_info_cache = none;
}

abbrev finish : World Pacer
finish = requests elapse (env_of config parts) (account_read ∷ account_read ∷ []) start

requests-IsPaced_example :
    All (IsPaced finish.limiter.admitted) finish.limiter.windows
    × (length finish.limiter.admitted ≡ length finish.sent)
requests-IsPaced_example =
    requests-IsPaced elapse config parts (account_read ∷ account_read ∷ []) start refl
      ((omega arith, refl, refl), tt) refl refl

-- The time is asked for first; the second read waits until the interval of the first request ends.
requests_run : finish.limiter.admitted ≡ (60_010, 10, false) ∷ (15, 10, false) ∷ (5, 1, false) ∷ []
unfolding requests binance_th.Transport.Pipeline.request env_of binance_th.Transport.Reply.handle
    binance_th.Errors.Mapping.raise_for_http_status binance_th.TimeSync.update
    binance_th.Transport.Paced.paced_headers binance_th.Transport.Paced.paced_acquire
    binance_th.RateLimit.Limiter.acquire_from binance_th.RateLimit.Limiter.acquire_round
    binance_th.RateLimit.Limiter.longest_wait binance_th.RateLimit.Limiter.roll_all
    binance_th.RateLimit.Headers.update_from_headers binance_th.RateLimit.Limiter.charge_amount
    binance_th.RateLimit.Window.roll binance_th.RateLimit.Window.wait_time
    binance_th.RateLimit.Limiter.charge_all
requests_run = refl
