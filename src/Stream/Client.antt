-- ===== src/Stream/Client.antt =====
-- `StreamClient` of binance_th/stream.py: one connection for each host.
use binance_th.Prelude.{
  ℕ, String, Bool, true, false, Option, none, some, List, [], ◌∷◌, ◌++◌, if◌then◌else◌, or_else,
  map,
}
use binance_th.Prelude.Text.{String-discrete}
use binance_th.Prelude.Dict.{Dict, lookup, insert, values}
use binance_th.Errors.Exceptions.{Result, ok, raise}
use binance_th.Stream.Connection.{WsConfig, Connection, new_connection, subscribe, aclose}
use binance_th.Stream.Supervisor.{Move, step}
use binance_th.Stream.Router.{SymbolTypeInfo, Router, host_for, stream_name}

-- `torn_down` holds the connections that `aclose` took out of the dict.
pub record Client : Type 0 where
  pub router : Router
  pub conns : Dict String Connection
  pub closing : Bool
  pub torn_down : List Connection

abbrev pub new_client : Client
new_client = record {
  router = record { type_cache = []; calls = 0 };
  conns = [];
  closing = false;
  torn_down = [];
}

module _ (config : WsConfig) (symbol_types_of : ℕ → String → Result (List SymbolTypeInfo)) where
  -- `_subscribe`: the host of the connection and the number of the subscription, or what the
  -- provider raised.
  unfoldable pub client_subscribe :
      String → String → Option String → Client → Result (String × ℕ) × Client
  client_subscribe symbol channel interval c =
      let routed = host_for config symbol_types_of symbol c.router in
      let asked : Client = record c { router = routed.1 } in
      elim routed.0 [
        | raise e ↦ (raise e, asked)
        | ok host ↦
            let conn = or_else (lookup String-discrete host c.conns) new_connection in
            let stream = stream_name symbol channel interval in
            (
              ok (host, conn.created),
              record asked {
                conns = insert String-discrete host (subscribe config stream conn) c.conns;
              },
            )
      ]

-- `aclose`
unfoldable pub client_aclose : Client → Client
client_aclose c = if c.closing then c else record c {
  closing = true;
  torn_down = map aclose (values c.conns) ++ c.torn_down;
  conns = [];
}

-- Something happens to the connection of a host, such as a call of its `unsubscribe`.
unfoldable pub on_connection : WsConfig → String → Move → Client → Client
on_connection config host m c = elim (lookup String-discrete host c.conns) [
  | none ↦ c
  | some conn ↦ record c { conns = insert String-discrete host (step config m conn) c.conns }
]

-- The calls of `watch_…` and `order_book`, which name a channel, of `aclose`, and the events.
pub data ClientMove : Type 0 where
  watches : String → String → Option String → ClientMove
  meets : String → Move → ClientMove
  client_closes : ClientMove

module _ (config : WsConfig) (symbol_types_of : ℕ → String → Result (List SymbolTypeInfo)) where
  unfoldable pub client_step : ClientMove → Client → Client
  unfolding client_subscribe on_connection client_aclose
  client_step (watches symbol channel interval) c =
      (client_subscribe config symbol_types_of symbol channel interval c).1
  client_step (meets host m) c = on_connection config host m c
  client_step client_closes c = client_aclose c

  unfoldable pub client_run : List ClientMove → Client → Client
  unfolding client_step
  client_run [] c = c
  client_run (m ∷ ms) c = client_run ms (client_step m c)
