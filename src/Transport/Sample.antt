-- ===== src/Transport/Sample.antt =====
-- A transport of binance_th/transport.py for the tests: the exchange is an argument.
use Prim.Native.String.{◌++◌}
use binance_th.Prelude.{ℕ, Option, none, some, List, [], ◌∷◌}
use binance_th.Prelude.Int.{ℤ, pos, negsuc}
use binance_th.Prelude.Json.{Json, object, int, str, field, end}
use binance_th.Models.Base.{ExchangeInfo}
use binance_th.Models.Orders.{Order}
use binance_th.TimeSync.{unsynced}
use binance_th.Retry.{default_backoff}
use binance_th.Transport.Reply.{Reply, response}
use binance_th.Transport.Pipeline.{Request, Entry, World, Env}

abbrev pub server_time : Json → Option ℤ
server_time (object (field name (int t) end)) = some t
server_time _ = none

abbrev pub sample_env :
    (Json → Option ExchangeInfo)
    → (Json → Option Order)
    → (List Entry → Request → Reply)
    → Env (Unit {0})
sample_env exchange_info_of order_of http = record {
  api_key = some "key";
  api_secret = some "secret";
  recv_window = pos 5000;
  max_retries = 2;
  backoff = default_backoff (λ ceiling. ceiling);
  acquire = λ weight mutating l. l;
  update_from_headers = λ headers l. l;
  hmac = λ secret payload. secret ++ payload;
  clock = λ n. pos n;
  http = http;
  server_time = server_time;
  exchange_info_of = exchange_info_of;
  order_of = order_of;
  reseed = λ rules l. l;
}

abbrev pub sample_world : World (Unit {0})
sample_world = record {
  limiter = tt;
  timesync = unsynced;
  sent = [];
  clock_reads = 0;
  slept = [];
  exchange_info_cache = none;
}

abbrev pub answer : ℕ → Json → Reply
answer status body =
    response (record { status_code = status; headers = []; text = ""; json = some body })

abbrev pub refusal : ℤ → Json
refusal code = object (field "code" (int code) (field "msg" (str "no") end))

-- It tells the time, and refuses the first other request, the second that it receives, for its
-- timestamp; it fails on the rest with `last`.
abbrev pub late_once : Reply → List Entry → Request → Reply
late_once last [] request = answer 200 (object (field "serverTime" (int (pos 900)) end))
late_once last (e ∷ []) request = answer 400 (refusal (negsuc 1020))
late_once last (e ∷ f ∷ []) request = answer 200 (object (field "serverTime" (int (pos 901)) end))
late_once last (e ∷ f ∷ g ∷ rest) request = last
