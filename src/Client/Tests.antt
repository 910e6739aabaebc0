-- ===== src/Client/Tests.antt =====
-- The cache of binance_th/client.py on one fetch, a ping, and `aclose` with one listen key.
use binance_th.Prelude.{◌≡◌, refl, true, false, none, some, List, [], ◌∷◌}
use binance_th.Prelude.Json.{object, end}
use binance_th.Errors.Exceptions.{ok}
use binance_th.Models.Base.{ExchangeInfo}
use binance_th.Transport.Pipeline.{Entry, World, Env}
use binance_th.Transport.Sample.{sample_env, sample_world, answer}
use binance_th.Prelude.Json.{str}
use binance_th.Prelude.Dict.{values}
use binance_th.Models.Enums.{global}
use binance_th.Stream.Client.{new_client}
use binance_th.UserStream.ListenKey.{new_manager}
use binance_th.UserStream.ListenKey.Keys.{Visited}
use binance_th.UserStream.Lifecycle.{new_user_data}
use binance_th.Client.Lifecycle.{BinanceThClient, aclose, is_pong, aclose_releases}
use binance_th.Client.{exchange_info, exchange_info_cached}

abbrev info : ExchangeInfo
info = record { rate_limits = []; symbols = [] }

abbrev env : Env (Unit {0})
env = sample_env (λ j. some info) (λ j. none) (λ log request. answer 200 (object end))

exchange_info_cached_sample :
    exchange_info env false (exchange_info env true sample_world).1
    ≡ (ok info, (exchange_info env true sample_world).1)
unfolding exchange_info binance_th.Transport.Reply.handle
    binance_th.Errors.Mapping.raise_for_http_status
exchange_info_cached_sample = exchange_info_cached env true sample_world info refl

pong_runs : (is_pong (str " pong\n") ≡ true) × (is_pong (str "pong!") ≡ false)
unfolding binance_th.Prelude.Text.skip_spaces binance_th.Prelude.Text.same
pong_runs = (refl, refl)

abbrev client : BinanceThClient
client = record {
  ws = new_client;
  user_stream = record new_user_data { keys = record new_manager { keys = (global, "abc") ∷ [] } };
  http_closed = none;
}

aclose_releases_example :
    ((log : List Entry) × ((aclose env client sample_world).0.http_closed ≡ some log)
      × ((aclose env client sample_world).1.sent ≡ log)
      × Visited env "DELETE" (values client.user_stream.keys.keys) [] log)
    × ((later : World (Unit {0}))
        → aclose env (aclose env client sample_world).0 later
          ≡ ((aclose env client sample_world).0, later))
aclose_releases_example = aclose_releases env client sample_world refl refl
