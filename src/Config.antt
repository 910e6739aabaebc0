-- ===== src/Config.antt =====
-- `BinanceThConfig` of binance_th/config.py: the settings with their defaults and bounds. Seconds
-- that the source holds as floats are milliseconds. Reading the environment is left out.
use Prim.Native.String as S
use binance_th.Prelude.{
  ℕ, String, ◌+◌, ◌≤◌, ◌<◌, ◌≡◌, ◌≢◌, ◌↔◌, refl, Bool, true, false, ◌&&◌, Option, none, some,
  is_some, arith,
}
mod Tests

pub record BinanceThConfig : Type 0 where
  pub api_key : Option String
  pub api_secret : Option String
  pub rest_base_url : String
  pub ws_base_url : String
  pub ws_base_url_global : String
  pub ws_base_url_site : String
  pub timeout : ℕ
  pub max_retries : ℕ
  pub enable_rate_limiting : Bool
  pub recv_window : ℕ
  pub ws_auto_reconnect : Bool
  pub ws_ping_interval : ℕ
  pub ws_ping_timeout : ℕ
  pub ws_supports_live_subscribe : Bool
  pub user_stream_keepalive_interval : ℕ
  pub log_level : String
  pub log_requests : Bool
  pub log_responses : Bool

abbrev pub default_config : BinanceThConfig
default_config = record {
  api_key = none;
  api_secret = none;
  rest_base_url = "https://api.binance.th";
  ws_base_url = "wss://nbstream.binance.th/w3w/wsa/stream";
  ws_base_url_global = "wss://www.binance.th/gstream";
  ws_base_url_site = "wss://www.binance.th/nstream";
  timeout = 30_000;
  max_retries = 3;
  enable_rate_limiting = true;
  recv_window = 5000;
  ws_auto_reconnect = true;
  ws_ping_interval = 20;
  ws_ping_timeout = 10;
  ws_supports_live_subscribe = true;
  user_stream_keepalive_interval = 1_200_000;
  log_level = "INFO";
  log_requests = false;
  log_responses = false;
}

-- What the fields' bounds demand of a config that is built.
pub record IsValid (c : BinanceThConfig) : Type 0 where
  pub timeout_pos : 0 < c.timeout
  pub recv_window_pos : 0 < c.recv_window
  pub recv_window_max : c.recv_window ≤ 60_000
  pub ping_interval_pos : 0 < c.ws_ping_interval
  pub ping_timeout_pos : 0 < c.ws_ping_timeout
  pub keepalive_pos : 0 < c.user_stream_keepalive_interval
  pub keepalive_max : c.user_stream_keepalive_interval < 1_800_000

pub default_config-IsValid : IsValid default_config
default_config-IsValid = omega arith

unfoldable pub has_credentials : BinanceThConfig → Bool
has_credentials c = is_some c.api_key && is_some c.api_secret

unfoldable pub get_secret_value : BinanceThConfig → Option String
get_secret_value c = c.api_secret
