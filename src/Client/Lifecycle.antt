-- ===== src/Client/Lifecycle.antt =====
-- `BinanceThClient` of binance_th/client.py: the order of `aclose`, and `ping`.
use mathlib.Core.List.{reverse}
use binance_th.Prelude.{◌≡◌, refl, Bool, false, Option, none, some, List, [], is_some, arith}
use binance_th.Prelude.Dict.{values}
use binance_th.Prelude.Text.{codes, same, skip_spaces}
use binance_th.Prelude.Json.{Json, null, bool, int, real, str, array, object}
use binance_th.Errors.Exceptions.{ok}
use binance_th.Transport.Pipeline.{Call, Entry, World, Env, Act, bind, request}
use binance_th.Stream.Client.{Client, client_aclose}
use binance_th.UserStream.Lifecycle.{UserData, close_user_data, tear_down}
use binance_th.UserStream.ListenKey.{close}
use binance_th.UserStream.ListenKey.Keys.{Visited, close-Visited}

-- The parts that `aclose` closes. `http_closed` is the log of the transport at the time when its
-- HTTP client was closed.
pub record BinanceThClient : Type 0 where
  pub ws : Client
  pub user_stream : UserData
  pub http_closed : Option (List Entry)

-- `is_closed`
abbrev pub is_closed : BinanceThClient → Bool
is_closed c = is_some c.http_closed

-- `Transport.aclose`
abbrev pub transport_aclose : List Entry → Option (List Entry) → Option (List Entry)
transport_aclose log none = some log
transport_aclose log (some earlier) = some earlier

abbrev ping_call : Call
ping_call = record {
  method = "GET";
  path = "/api/v1/ping";
  params = [];
  signed = false;
  api_key_only = false;
  envelope = false;
  weight = 1;
  mutating = false;
  parse_json = false;
}

-- `isinstance(text, str) and text.strip() == "pong"`, in ASCII.
abbrev pub is_pong : Json → Bool
is_pong (str s) = same (reverse (skip_spaces (reverse (skip_spaces (codes s))))) (codes "pong")
is_pong null = false
is_pong (bool b) = false
is_pong (int n) = false
is_pong (real s) = false
is_pong (array is) = false
is_pong (object fs) = false

module _ {L : Type 0} (env : Env L) where
  unfoldable pub aclose : BinanceThClient → World L → BinanceThClient × World L
  unfolding client_aclose close_user_data
  aclose c w =
      let ws = client_aclose c.ws in
      let user = close_user_data env c.user_stream w in
      (
        record {
          ws = ws;
          user_stream = user.0;
          http_closed = transport_aclose user.1.sent c.http_closed;
        },
        user.1,
      )

  unfoldable pub ping : Act L Bool
  unfolding bind request
  ping = bind (request env ping_call) λ text w. (ok (is_pong text), w)

  aclose_user :
      (c : BinanceThClient) (w : World L)
      → c.user_stream.closing ≡ false
      → (aclose c w).1 ≡ (close env c.user_stream.keys w).1
  unfolding aclose close_user_data
  aclose_user c w fresh = rw (fresh, close_user_data) refl

  -- `aclose` of an open client sends a DELETE for each listen key, one key after another, before
  -- the HTTP client is closed, and nothing after; a second call changes nothing and sends nothing.
  pub aclose_releases :
      (c : BinanceThClient) (w : World L)
      → c.user_stream.closing ≡ false
      → c.http_closed ≡ none
      → ((log : List Entry) × ((aclose c w).0.http_closed ≡ some log)
          × ((aclose c w).1.sent ≡ log)
          × Visited env "DELETE" (values c.user_stream.keys.keys) w.sent log)
        × ((later : World L) → aclose (aclose c w).0 later ≡ ((aclose c w).0, later))
  unfolding aclose close_user_data client_aclose tear_down
  aclose_releases c w fresh alive = (
    (
      (aclose c w).1.sent,
      ground (arith, alive),
      refl,
      rw (aclose_user c w fresh) ((close-Visited env c.user_stream.keys w).0),
    ),
    λ later. ground (arith, fresh, alive),
  )
